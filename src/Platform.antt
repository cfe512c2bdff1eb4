-- ===== src/Platform.antt =====
-- What the program uses and does not implement. A float is its IEEE 754 bit pattern, and the
-- operations on floats, PostgreSQL's REAL among them, are parameters; so are `json.loads`, the
-- sequence numbers of `swpt_pythonlib.utils` and `ShardingRealm`.
use swpt_debtors.Prelude.{ℕ, String, ◌≡◌, Bool, true, Option, ℤ, pos, ◌≤ℤ◌}

-- The bit pattern of a double.
abbrev pub Float : Type 0
Float = ℕ

-- Microseconds, counted so that the whole days are `date.toordinal()`.
abbrev pub Timestamp : Type 0
Timestamp = ℕ

-- `date.toordinal()`
abbrev pub Date : Type 0
Date = ℕ

-- What `json.loads` returns. Of arrays, numbers and the constants the program tells only that they
-- are neither objects nor strings.
mutual
  pub data Json : Type 0 where
    other : Json
    str : String → Json
    dict : Fields → Json

  pub data Fields : Type 0 where
    end : Fields
    field : String → Json → Fields → Fields

pub record Platform : Type 0 where
  -- `float(n)`, and the operators of Python and of SQL on floats
  pub of_int : ℤ → Float
  pub negate : Float → Float
  pub absolute : Float → Float
  pub plus : Float → Float → Float
  pub minus : Float → Float → Float
  pub times : Float → Float → Float
  pub leq : Float → Float → Bool
  -- the literals 1, 1e-5 and 1e30
  pub one : Float
  pub eps : Float
  pub huge_negligible_amount : Float
  -- a float stored in a REAL column and read back
  pub to_real : Float → Float
  -- `none` is `json.JSONDecodeError`
  pub json_loads : String → Option Json
  -- `increment_seqnum`, and `Seqnum`'s `==` and `<=`
  pub increment_seqnum : ℤ → ℤ
  pub seqnum_eq : ℤ → ℤ → Bool
  pub seqnum_le : ℤ → ℤ → Bool

-- The laws that some theorems rely on. REAL keeps six decimal digits, so a balance limit survives
-- the column up to a relative error of `EPS`; a sequence number equals itself.
pub record IsStandard (p : Platform) : Type 0 where
  pub real_precision :
      (m : ℤ)
      → m ≤ℤ pos 0
      → p.leq
          (p.absolute (p.plus (p.of_int m) (p.to_real (p.negate (p.of_int m)))))
          (p.times p.eps (p.to_real (p.negate (p.of_int m))))
        ≡ true
  pub seqnum_eq_refl : (n : ℤ) → p.seqnum_eq n n ≡ true
  pub seqnum_le_refl : (n : ℤ) → p.seqnum_le n n ≡ true
  pub real_huge :
      p.leq
        (p.times (p.minus p.one p.eps) p.huge_negligible_amount)
        (p.to_real p.huge_negligible_amount)
      ≡ true
