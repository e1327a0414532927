-- ===== src/SubServices/Tests.antt =====
-- The sub-services on the parts of SubServices/Fixture.antt.
use fuelmint.Common.{◌≡◌, refl}
use fuelmint.App.Fixture.{config}
use fuelmint.GraphApi.Fixture.{web, web-AddsNewRoutes}
use fuelmint.GraphApi.Router.{NotInitializedTask, shared_data}
use fuelmint.SubServices.Fixture.{parts}
use fuelmint.SubServices.Init.{init_sub_services}
use fuelmint.SubServices.Wiring.{Inits, init_sub_services-Inits}

shares_lem : (task : NotInitializedTask web) → parts.graph_shared task ≡ shared_data task
unfolding shared_data
shares_lem task = refl

init_sub_services-Inits_example : Inits parts config 5 4000 (init_sub_services parts config 5 4000)
init_sub_services-Inits_example =
    init_sub_services-Inits parts web-AddsNewRoutes shares_lem config 5 4000
