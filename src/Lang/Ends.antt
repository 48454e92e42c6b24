-- ===== src/Lang/Ends.antt =====
-- Runs that end: they keep within their fuel, and the input that they leave has fewer than `n`
-- lexemes, or `n` at most after an error. One rule for each combinator of Lang/Stream.
use alkali.Prelude.{
  ℕ, suc, ◌-◌, ◌≤◌, ◌<◌, ◌≡◌, refl, ◌≢◌, Bool, true, false, [], ◌∷◌, Option, none, some, arith, inl,
  inr, Bool-cases, length,
}
use alkali.Lang.Token.{Text, Token, same, tok_eof}
use alkali.Lang.Stream.{
  Lexemes, Run, Parser, ok, null, fault, out_of_fuel, word, numeral, sign, kind, cur, next,
  and_then, keep, consume, expect_id, expect_value, skip,
}
use alkali.Lang.Number.{convert}

pub data Ends {ℓ} {A : Type ℓ} (n : ℕ) : Run A → Type ℓ where
  ended : {a : A} {ts : Lexemes} → length ts < n → Ends n (ok a ts)
  nulled : {ts : Lexemes} → length ts ≤ n → Ends n (null ts)
  faulted : Ends n fault

pub Ends-out_of_fuel {ℓ} : {A : Type ℓ} {n : ℕ} {r : Run A} → Ends n r → r ≢ out_of_fuel
Ends-out_of_fuel (ended h) = cc
Ends-out_of_fuel (nulled h) = cc
Ends-out_of_fuel faulted = cc

module _ {ℓ} {A : Type ℓ} where
  pub Ends-mono : {n m : ℕ} {r : Run A} → n ≤ m → Ends n r → Ends m r
  Ends-mono le (ended h) = ended (omega arith)
  Ends-mono le (nulled h) = nulled (omega arith)
  Ends-mono le faulted = faulted

  pub Ends-keep : {n : ℕ} {r : Run A} → Ends n r → Ends (suc n) (keep r)
  Ends-keep (ended h) = ended (omega arith)
  Ends-keep (nulled h) = ended (omega arith)
  Ends-keep faulted = faulted

  pub Ends-branch :
      (b : Bool) {n : ℕ} {r s : Run A}
      → (b ≡ true → Ends n r)
      → (b ≡ false → Ends n s)
      → Ends n (elim b [ true ↦ r | false ↦ s ])
  Ends-branch true hr hs = hr refl
  Ends-branch false hr hs = hs refl

  pub Ends-bind {κ} :
      {B : Type κ} {n m : ℕ} {r : Run A} {f : A → Parser B}
      → Ends n r
      → n ≤ m
      → ((a : A) (ts : Lexemes) → length ts < n → Ends m (f a ts))
      → Ends m (and_then r f)
  Ends-bind (ended {a} {ts} h) le k = k a ts h
  Ends-bind (nulled h) le k = nulled (omega arith)
  Ends-bind faulted le k = faulted

  -- A kept result is never null.
  pub Ends-kept {κ} :
      {B : Type κ} {n m : ℕ} {r : Run A} {f : Option A → Parser B}
      → Ends n r
      → ((o : Option A) (ts : Lexemes) → length ts ≤ n → Ends m (f o ts))
      → Ends m (and_then (keep r) f)
  Ends-kept (ended {a} {ts} h) k = k (some a) ts (omega arith)
  Ends-kept (nulled {ts} h) k = k none ts h
  Ends-kept faulted k = faulted

  pub Ends-on_some {κ} :
      {B : Type κ} (o : Option B) {n : ℕ} {r : Run A} {f : B → Run A}
      → Ends n r
      → ((a : B) → o ≡ some a → Ends n (f a))
      → Ends n (elim o [ none ↦ r | some a ↦ f a ])
  Ends-on_some none hr hf = hr
  Ends-on_some (some a) hr hf = hf a refl

-- Where the current token is not `tok_eof`, there is one.
pub cur-pos :
    (t : Token) (ts : Lexemes) → same tok_eof t ≡ false → same (cur ts) t ≡ true → 0 < length ts
unfolding cur
cur-pos t [] ne e = cc
cur-pos t (x ∷ ts) ne e = omega arith

pub length-next : (ts : Lexemes) → length (next ts) ≡ length ts - 1
unfolding next
length-next [] = omega arith
length-next (x ∷ ts) = omega arith

pub consume-Ends :
    (t : Token) (ts : Lexemes) → same tok_eof t ≡ false → Ends (length ts) (consume t ts)
unfolding consume
consume-Ends t [] ne = rw ne faulted
consume-Ends t (x ∷ ts) ne = elim (Bool-cases (same (kind x) t)) [
  | inl e ↦ rw e (ended (omega arith))
  | inr e ↦ rw e faulted
]

pub expect_id-Ends : (ts : Lexemes) → Ends (length ts) (expect_id ts)
unfolding expect_id
expect_id-Ends [] = nulled (omega arith)
expect_id-Ends (word s ∷ ts) = ended (omega arith)
expect_id-Ends (numeral s ∷ ts) = nulled (omega arith)
expect_id-Ends (sign t ∷ ts) = nulled (omega arith)

pub expect_value-Ends : (bound : ℕ) (ts : Lexemes) → Ends (length ts) (expect_value bound ts)
unfolding expect_value
expect_value-Ends bound [] = nulled (omega arith)
expect_value-Ends bound (word s ∷ ts) = nulled (omega arith)
expect_value-Ends bound (numeral s ∷ ts) =
    Ends-on_some (convert bound s) faulted λ n e. ended {ts = ts} (omega arith)
expect_value-Ends bound (sign t ∷ ts) = nulled (omega arith)

pub length-skip : (t : Token) (ts : Lexemes) → length (skip t ts) ≤ length ts
unfolding skip
length-skip t [] = omega arith
length-skip t (x ∷ ts) = ground (arith, length-skip t ts)

-- A token that is there is skipped.
pub length-skip_lt :
    (t : Token) (ts : Lexemes)
    → same tok_eof t ≡ false
    → same (cur ts) t ≡ true
    → length (skip t ts) < length ts
unfolding skip cur
length-skip_lt t [] ne e = cc
length-skip_lt t (x ∷ ts) ne e = ground (arith, length-skip t ts)

-- The rules for a step that takes a lexeme, with what follows it.
module _ {ℓ} {A : Type ℓ} {m : ℕ} (ts : Lexemes) where
  pub then_consume :
      (t : Token) {k : Unit {0} → Parser A}
      → same tok_eof t ≡ false
      → length ts ≤ m
      → ((u : Unit {0}) (ts' : Lexemes) → length ts' < length ts → Ends m (k u ts'))
      → Ends m (and_then (consume t ts) k)
  then_consume t ne le k = Ends-bind (consume-Ends t ts ne) le k

  pub then_id :
      {k : Text → Parser A}
      → length ts ≤ m
      → ((s : Text) (ts' : Lexemes) → length ts' < length ts → Ends m (k s ts'))
      → Ends m (and_then (expect_id ts) k)
  then_id le k = Ends-bind (expect_id-Ends ts) le k

  pub then_value :
      (bound : ℕ) {k : ℕ → Parser A}
      → length ts ≤ m
      → ((n : ℕ) (ts' : Lexemes) → length ts' < length ts → Ends m (k n ts'))
      → Ends m (and_then (expect_value bound ts) k)
  then_value bound le k = Ends-bind (expect_value-Ends bound ts) le k
