-- ===== src/Orders/Venue/Tests.antt =====
-- A crash after the broker took an order of which four shares are filled.
use alpha_live.Prelude.{◌*◌, refl, none, pos}
use alpha_live.Risk.Types.{share, market}
use alpha_live.Risk.Samples.{at_ten}
use alpha_live.State.Types.{Side}
use alpha_live.State.Disk.{corrupted}
use alpha_live.Orders.Progress.{Office}
use alpha_live.Orders.Venue.Crash.{sent_from}
use alpha_live.Orders.Samples.{sample_office, id_twelve}

abbrev restarted : Office
restarted = record sample_office {
  store = record sample_office.store {
    mem =
        (sent_from id_twelve (at_ten 7) 6 (pos (10 * share)) Side.buy market sample_office corrupted
          none refl).mem;
  };
}
