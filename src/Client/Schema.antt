-- ===== src/Client/Schema.antt =====
-- fuelmint/src/client/schema.rs: the schema of the node. What it is built of is Client/Merged.antt.
use fuelmint.Common.{[], ◌∷◌, text}
use fuelmint.Fuel.{Fuel}
use fuelmint.GraphApi.Web.{Web}
use fuelmint.Client.Merged.{default_mutation, default_subscription}
use fuelmint.SubServices.Parts.{PartTypes, Parts}

-- `build_schema`
abbrev pub build_schema : {F : Fuel} {T : PartTypes} {W : Web} → Parts F T W → W.SchemaBuilder
build_schema {T = T} P =
    P.build_with_ignore_name_conflicts T.schema.default_query (default_mutation T.schema)
      (default_subscription T.schema) (text "TransactionConnection" ∷ text "MessageConnection" ∷ [])
