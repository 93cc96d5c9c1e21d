-- ===== src/Base/Rows.antt =====
-- A database table whose primary key is a pair of texts, and the two statements on it: a write of
-- the row at a key, and `UPDATE ... WHERE key AND condition`.
use Prim.Native.String.{String}
use mathlib.Core.Path.{◌≡◌, refl}
use mathlib.Core.Bool.{Bool, true, false, ◌&&◌}
use mathlib.Core.Option.{Option, none, some}
use text.Mathlib.Text.{◌==◌ as str_eq}
use text.Mathlib.TextPositions.{eq_refl}
use fornix.Base.Tests.{if◌then◌else◌}

abbrev pub Table : Type 0 → Type 0
Table V = String → String → Option V

module _ {V : Type 0} where
  unfoldable pub write : Table V → String → String → V → Table V
  write t w c v a b = if str_eq w a && str_eq c b then some v else t a b

  -- The second component is the number of affected rows, 0 or 1, as a test.
  unfoldable pub update_where : Table V → String → String → (V → Bool) → (V → V) → Table V × Bool
  unfolding write
  update_where t w c test f = elim (t w c) [
    | none ↦ (t, false)
    | some v ↦ if test v then (write t w c (f v), true) else (t, false)
  ]

  pub write_self : (t : Table V) (w c : String) (v : V) → write t w c v w c ≡ some v
  unfolding write
  write_self t w c v = simp eq_refl

  pub write_lem :
      (t : Table V) (w c : String) (v : V) (a b : String)
      → write t w c v a b ≡ (if str_eq w a && str_eq c b then some v else t a b)
  unfolding write
  write_lem t w c v a b = refl

  pub update_where-hit :
      (t : Table V) (w c : String) (test : V → Bool) (f : V → V) (v : V)
      → t w c ≡ some v
      → test v ≡ true
      → update_where t w c test f ≡ (write t w c (f v), true)
  unfolding update_where
  update_where-hit t w c test f v e h = rw (e, update_where) (rw h)

  pub update_where-miss :
      (t : Table V) (w c : String) (test : V → Bool) (f : V → V) (v : V)
      → t w c ≡ some v
      → test v ≡ false
      → update_where t w c test f ≡ (t, false)
  unfolding update_where
  update_where-miss t w c test f v e h = rw (e, update_where) (rw h)

  pub update_where-none :
      (t : Table V) (w c : String) (test : V → Bool) (f : V → V)
      → t w c ≡ none
      → update_where t w c test f ≡ (t, false)
  unfolding update_where
  update_where-none t w c test f e = rw (e, update_where)
