-- ===== src/Rank/Prefix.antt =====
-- engine/rank.py: ranking with a limit is ranking without one, cut to size.
use pysqlsuggestions.Prelude.{ℕ, Bool, true, false, [], ◌∷◌, Str, leb, ◌≡◌, refl, arith}
use pysqlsuggestions.Lex.Token.{Chars}
use pysqlsuggestions.Rank.Match.{Floats, IsOrdered}
use pysqlsuggestions.Rank.Defs.{Scored, Row, then_by, text_le, order_le, row_le}

-- Orders by several keys in turn.
leb_total : (x y : ℕ) → leb x y ≡ false → leb y x ≡ true
leb_total x y h = ground arith

pub leb_trans : (x y z : ℕ) → leb x y ≡ true → leb y z ≡ true → leb x z ≡ true
leb_trans x y z h k = ground arith

module _ {A : Type 0} (le : A → A → Bool) (total : (x y : A) → le x y ≡ false → le y x ≡ true) where
  then_by_total :
      (x y : A) (b c : Bool)
      → (b ≡ false → c ≡ true)
      → then_by le x y b ≡ false
      → then_by le y x c ≡ true
  then_by_total x y b c h e = ground (arith, total x y, total y x)

module _ {A : Type 0} (le : A → A → Bool)
    (trans : (x y z : A) → le x y ≡ true → le y z ≡ true → le x z ≡ true) where
  pub then_by_trans :
      (x y z : A) (b c d : Bool)
      → (b ≡ true → c ≡ true → d ≡ true)
      → then_by le x y b ≡ true
      → then_by le y z c ≡ true
      → then_by le x z d ≡ true
  then_by_trans x y z b c d h e k =
      ground (arith, trans x y z, trans z x y, trans y z x, trans z y x)

text_le_total : (x y : Str) → text_le x y ≡ false → text_le y x ≡ true
unfolding text_le
text_le_total [] y h = cc
text_le_total (x ∷ xs) [] h = refl
text_le_total (x ∷ xs) (y ∷ ys) h =
    then_by_total leb leb_total x y (text_le xs ys) (text_le ys xs) (text_le_total xs ys) h

module _ (u : Chars) (f : Floats) (ord : IsOrdered f) where
  open f use {Float, le}

  pub row_le_total : (x y : Row Float) → row_le u f x y ≡ false → row_le u f y x ≡ true
  unfolding row_le
  row_le_total x y = then_by_total leb leb_total x.restricted y.restricted _ _ (
      then_by_total le ord.total x.negated y.negated _ _
        (then_by_total leb leb_total x.size y.size _ _ (text_le_total x.lowered y.lowered)))

  order_le_trans :
      (x y z : Scored Float)
      → order_le u f x y ≡ true
      → order_le u f y z ≡ true
      → order_le u f x z ≡ true
  unfolding order_le
  order_le_trans x y z = then_by_trans leb leb_trans x.restricted y.restricted z.restricted _ _ _ (
      then_by_trans le ord.trans x.negated y.negated z.negated _ _ _
        (leb_trans x.size y.size z.size))
