-- ===== src/Server/Sources.antt =====
-- `SourceKey` of crates/throcc-server/src/limits.rs: whom a limit counts as one source. A u32,
-- u64 or u128 is a number; masking low bits away is written by division.
use throcc.Prelude.{
  ℕ, ◌*◌, ◌/◌, ◌%◌, ◌^◌, ◌≡◌, ◌↔◌, ap, Bool, true, false, if◌then◌else◌, ◌==◌, ==_iff, arith,
}
use throcc.Prelude.Table.{Eq}

-- An IPv4 address as a u32, or an IPv6 address as a u128.
pub data IpAddr : Type 0 where
  ip4 ip6 : ℕ → IpAddr

-- The full IPv4 address, or the IPv6 /64.
pub data SourceKey : Type 0 where
  v4 v6 : ℕ → SourceKey

-- An address `::ffff:a.b.c.d` stands for the IPv4 address a.b.c.d.
unfoldable pub of : IpAddr → SourceKey
of (ip4 a) = v4 a
of (ip6 a) = if a / 2 ^ 32 == 0xffff then v4 (a % 2 ^ 32) else v6 (a / 2 ^ 64)

-- The IPv4 /24, or the IPv6 /48.
unfoldable pub network : SourceKey → SourceKey
network (v4 a) = v4 (a / 2 ^ 8 * 2 ^ 8)
network (v6 prefix) = v6 (prefix / 2 ^ 16 * 2 ^ 16)

-- The IPv4 /16, or the IPv6 /32.
unfoldable pub region : SourceKey → SourceKey
region (v4 a) = v4 (a / 2 ^ 16 * 2 ^ 16)
region (v6 prefix) = v6 (prefix / 2 ^ 32 * 2 ^ 32)

abbrev pub same_source : SourceKey → SourceKey → Bool
same_source (v4 a) (v4 b) = a == b
same_source (v6 a) (v6 b) = a == b
same_source _ _ = false

pub same_source_iff : (a b : SourceKey) → (same_source a b ≡ true) ↔ (a ≡ b)
same_source_iff (v4 a) (v4 b) = (λ h. ap v4 ((==_iff a b).0 h), λ h. ground arith)
same_source_iff (v6 a) (v6 b) = (λ h. ap v6 ((==_iff a b).0 h), λ h. ground arith)
same_source_iff (v4 a) (v6 b) = (λ h. cc, λ h. cc)
same_source_iff (v6 a) (v4 b) = (λ h. cc, λ h. cc)

instance abbrev pub source_eq : Eq SourceKey
source_eq = record { beq = same_source; beq_iff = same_source_iff }
