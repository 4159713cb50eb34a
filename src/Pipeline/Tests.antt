-- ===== src/Pipeline/Tests.antt =====
-- A receipt and an allocation, and the relay's run on their events.
use multi_tenant.Base.{refl, All}
use multi_tenant.Relay.Source.{claim_pending_events}
use multi_tenant.Relay.Worker.{process_source, claim_params}
use multi_tenant.Relay.Worker.Delivery.{ArePublished}
use multi_tenant.Relay.Tests.{config, all_accepted, all_accepted-IsSmooth, is_date, unlocked}
use multi_tenant.Wms.Service.{serve}
use multi_tenant.Wms.Tests.{history, opened}
use multi_tenant.Pipeline.{relay_on, serve-delivers}

serve-delivers_example :
    All
      (λ e.
        ArePublished e.outbox_id
          (process_source config 8 is_date unlocked 1000 all_accepted
            (relay_on (serve history opened).outbox)).relay.rows)
      (claim_pending_events unlocked
        (claim_params config 8 is_date 1000)
        (relay_on (serve history opened).outbox).rows).1
serve-delivers_example =
    serve-delivers is_date (λ at. refl) history opened (refl, (refl, tt)) refl config 8 unlocked
      1000 all_accepted all_accepted-IsSmooth
