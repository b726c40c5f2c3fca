-- ===== src/Memory.antt =====
-- The memory that kernel and daemon address: C objects on a little-endian machine, as the x86
-- targets of the sources. A memory gives each bit; bit `i` of the byte at address `a` is bit
-- `8 * a + i`, so a load of any width reads consecutive bits, the lowest first.
pub mod Laws
use greko.Base.{ℕ, ◌+◌, ◌-◌, ◌*◌, Bool, true, false, ◌&&◌, ltb, leb, if◌then◌else◌}
use greko.Base.Bits.{testbit, from_bits}

abbrev pub Memory : Type 0
Memory = ℕ → Bool

-- The `w`-bit word at address `a`.
unfoldable pub load : ℕ → Memory → ℕ → ℕ
load w m a = from_bits (λ i. m (8 * a + i)) w

unfoldable pub store : ℕ → Memory → ℕ → ℕ → Memory
store w m a v n = if leb (8 * a) n && ltb n (8 * a + w) then testbit v (n - 8 * a) else m n

-- Reference updates, by bit number: the bits from `lo` up to `hi`, `hi` excluded, become 1 or 0.
unfoldable pub mark : ℕ → ℕ → Memory → Memory
mark lo hi m n = if leb lo n && ltb n hi then true else m n

unfoldable pub unmark : ℕ → ℕ → Memory → Memory
unmark lo hi m n = if leb lo n && ltb n hi then false else m n
