-- ===== src/Server/Gate/Tests.antt =====
-- `Gate` (crates/throcc-server/src/limits.rs) with two passes for one source, as many as its cap.
use throcc.Prelude.{◌<◌, ◌≡◌, ◌↔◌, refl, true, false, [], ◌∷◌, length, map}
use throcc.Prelude.Table.{find, put}
use throcc.Server.Sources.{SourceKey, v4, ip6, of, network, source_eq}
use throcc.Server.Gate.{Caps, no_counts, count_of, increment, try_enter}
use throcc.Server.Gate.Holders.{
  holders, Reach, Within, System, starts, later, enters, Reach-try_enter, Reach-Within,
}

abbrev caps : Caps
caps = record { per_source = 2; per_network = 3; total = 4 }

abbrev host : SourceKey
host = v4 0x0a000001

maps_ip4 : of (ip6 (0xffff_0a00_0001)) ≡ host
unfolding of
maps_ip4 = refl

abbrev one : System
one = record { held = host ∷ []; counts = (try_enter caps host no_counts).0 }

abbrev two : System
two = record { held = host ∷ host ∷ []; counts = (try_enter caps host one.counts).0 }

runs : Reach caps two
unfolding try_enter no_counts count_of increment network find put
runs = later (later starts (enters host refl)) (enters host refl)

is_turned_away : (try_enter caps host two.counts).1 ≡ false
unfolding try_enter no_counts count_of increment network find put
is_turned_away = refl

Reach-try_enter_example : ((try_enter caps host two.counts).1 ≡ true) ↔ (
    (length two.held < 4)
    × (holders host two.held < 2)
    × (holders (network host) (map network two.held) < 3))
Reach-try_enter_example = Reach-try_enter caps two host runs

Reach-Within_example : Within caps two
Reach-Within_example = Reach-Within runs
