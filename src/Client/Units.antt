-- ===== src/Client/Units.antt =====
-- `Unit` of crates/throcc-client-core/src/media/fragment.rs: a reassembled access unit.
use throcc.Prelude.{ℕ, List}
use throcc.Proto.Frame.{Flags}

pub record AccessUnit : Type 0 where
  pub first_seq : ℕ
  pub last_seq : ℕ
  pub timestamp : ℕ
  pub flags : Flags
  pub bytes : List ℕ
