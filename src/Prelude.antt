-- ===== src/Prelude.antt =====
-- The names that the other modules share: the libraries', passed on, and those of the children.
mod Tests
mod Lists
mod Filters
mod Sorting
mod Options
mod Equality
mod Words
mod Text
mod Trim
mod Split
mod Bits
use devhatch.Prelude.Lists.{All-append}
pub use Tests.*
pub use Lists.*
pub use Filters.*
pub use Sorting.*
pub use Options.*
pub use Equality.*
pub use Words.*
pub use Text.*
pub use Split.{put_first, lacks, split-one, split-append}
unfoldable pub use Split.{split}
unfoldable pub use Trim.{is_whitespace, trim_start, trim_end, utf16_len}
pub use Bits.*
pub use Prim.Native.Nat.{ℕ, zero, suc, ◌+◌, ◌-◌, ◌*◌, ◌/◌, ◌%◌, ◌^◌, ◌≤◌, ◌<◌, min, max}
pub use Prim.Native.String.{String}
pub use mathlib.Core.Path.{◌≡◌, refl, sym, ap, ◌∙◌, subst}
pub use mathlib.Core.Logic.{◌≢◌, ◌↔◌, ◌⊎◌, inl, inr}
pub use mathlib.Core.Bool.{Bool, true, false, not, ◌&&◌, ◌||◌}
pub use mathlib.Core.Option.{Option, none, some}
pub use mathlib.Core.List.{List, [], ◌∷◌, ◌++◌, map, append-nil, append_assoc}
pub use native.Mathlib.Omega.{arith}
