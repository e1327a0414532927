-- ===== src/Client.antt =====
-- fuelmint/src/client: the GraphQL mutations of the node. The interface to the libraries is
-- Client/Gql.antt, the mutations are Client/Tx.antt, and what they do is in Client/Mutations.antt.
pub mod Gql
pub mod Tx
pub mod Merged
pub mod Schema
pub mod Mutations
pub mod RoundTrip
pub mod Tests
