-- ===== src/Server/Gate.antt =====
-- `Gate` of crates/throcc-server/src/limits.rs: how many holders are admitted at once. The lock
-- makes each call one step; `enter` is `try_enter` again whenever a pass is dropped.
mod Holders
mod Tests
use throcc.Prelude.{ℕ, ◌+◌, ◌-◌, Bool, true, false, ◌||◌, [], none, some, leb, ◌==◌, if◌then◌else◌}
use throcc.Prelude.Table.{Table, find, put, erase}
use throcc.Server.Sources.{SourceKey, network, source_eq}

pub record Caps : Type 0 where
  pub per_source : ℕ
  pub per_network : ℕ
  pub total : ℕ

pub record Counts : Type 0 where
  pub total : ℕ
  pub sources : Table SourceKey ℕ
  pub networks : Table SourceKey ℕ

pub no_counts : Counts
no_counts = record { total = 0; sources = []; networks = [] }

-- `get(key).copied().unwrap_or(0)`.
pub count_of : SourceKey → Table SourceKey ℕ → ℕ
count_of key counts = elim (find key counts) [ none ↦ 0 | some n ↦ n ]

pub increment : SourceKey → Table SourceKey ℕ → Table SourceKey ℕ
increment key counts = put key (count_of key counts + 1) counts

pub decrement : SourceKey → Table SourceKey ℕ → Table SourceKey ℕ
decrement key counts = elim (find key counts) [
  | none ↦ counts
  | some n ↦ if n - 1 == 0 then erase key counts else put key (n - 1) counts
]

-- A pass is admitted if the result is `true`.
pub try_enter : Caps → SourceKey → Counts → Counts × Bool
try_enter caps source c =
    if leb caps.total c.total
      || leb caps.per_source (count_of source c.sources)
      || leb caps.per_network (count_of (network source) c.networks)
    then (c, false)
    else (
      record {
        total = c.total + 1;
        sources = increment source c.sources;
        networks = increment (network source) c.networks;
      },
      true,
    )

-- The pass of a source is dropped.
pub leave : SourceKey → Counts → Counts
leave source c = record {
  total = c.total - 1;
  sources = decrement source c.sources;
  networks = decrement (network source) c.networks;
}
