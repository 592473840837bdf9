-- ===== src/Base.antt =====
-- The names that every component shares: those of the libraries, passed on, and of the children
-- here (Boolean tests, lists, bits, buffers, memory).
pub mod Tests
pub mod Lists
pub mod Bits
pub mod Buffer
pub mod Bytes
pub use Tests.*
pub use Lists.*
pub use Bits.*
unfoldable pub use Bits.{passes_below}
pub use Buffer.*
unfoldable pub use Buffer.{store}
unfoldable pub use Bytes.{read_bytes, write_byte, write_bytes, bytes_eq}
pub use Bytes.*
pub use Prim.Native.Nat.{ℕ, zero, suc, ◌+◌, ◌-◌, ◌*◌, ◌/◌, ◌%◌, ◌^◌, ◌≤◌, ◌<◌, bit_and, bit_or}
pub use mathlib.Core.Path.{◌≡◌, refl, sym, ap, ap₂, ◌∙◌}
pub use mathlib.Core.Logic.{◌≢◌, ◌↔◌, ◌⊎◌, inl, inr}
pub use mathlib.Core.Bool.{Bool, true, false, ◌&&◌, ◌||◌, not}
pub use mathlib.Core.Option.{Option, none, some}
pub use mathlib.Core.List.{List, [], ◌∷◌, ◌++◌, map}
pub use native.Mathlib.Omega.{arith}
