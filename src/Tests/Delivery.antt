-- ===== src/Tests/Delivery.antt =====
-- deliver of services/cdc_service.go.
use gtc.Base.{◌≡◌, refl, List, some, concat}
use gtc.Base.Int.{pos}
use gtc.Domain.Event.{CdcEvent}
use gtc.Domain.Sink.{root, max_batch_events}
use gtc.Services.Deliver.{deliver}
use gtc.Services.Deliver.Pieces.{Fits, process_each, deliver_pieces}
use gtc.Tests.World.{sink_of, empty, batch}

-- By twos, the first piece holds the poison event and stops the delivery.
deliver_stops : (deliver (sink_of (some (pos 2))) root batch empty).0.calls ≡ 1
unfolding deliver
deliver_stops = refl

deliver_pieces_example :
    (ps : List (List CdcEvent)) × (concat ps ≡ batch)
    × Fits (max_batch_events (sink_of (some (pos 2)))) ps
    × (deliver (sink_of (some (pos 2))) root batch empty
        ≡ process_each (sink_of (some (pos 2))) root ps empty)
deliver_pieces_example = deliver_pieces (sink_of (some (pos 2))) root batch empty
