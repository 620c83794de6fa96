-- ===== src/Prelude/Memory.antt =====
-- A C array of bytes: copies out of it and into it at an offset.
use Prim.Native.Nat.{◌<◌, ℕ, zero, suc, ◌+◌, ◌-◌, ◌≤◌, ◌^◌, ◌%◌}
use mathlib.Core.Path.{◌≡◌, refl, ap, sym, ◌∙◌}
use mathlib.Core.List.{List, [], ◌∷◌, ◌++◌}
use native.Mathlib.Omega.{arith}
use openct.Prelude.Lists.{
  get_or, length, take, drop, length-take, length-drop, take-add, take-append, take-append-drop,
}

-- `unsigned int` arithmetic.
abbrev pub u32 : ℕ → ℕ
u32 n = n % 2 ^ 32

abbrev pub u8 : ℕ → ℕ
u8 n = n % 2 ^ 8

abbrev pub add32 : ℕ → ℕ → ℕ
add32 a b = (a + b) % 2 ^ 32

abbrev pub sub32 : ℕ → ℕ → ℕ
sub32 a b = (a + 2 ^ 32 - b) % 2 ^ 32

-- `memcpy(out, mem + off, n)`
abbrev pub load : List ℕ → ℕ → ℕ → List ℕ
load mem off n = take n (drop off mem)

-- `memcpy(mem + off, bytes, length bytes)`. Bytes past the end of the array are not stored.
abbrev pub store : List ℕ → ℕ → List ℕ → List ℕ
store [] off vs = []
store (x ∷ mem) zero [] = x ∷ mem
store (x ∷ mem) zero (v ∷ vs) = v ∷ store mem zero vs
store (x ∷ mem) (suc off) vs = x ∷ store mem off vs

pub store-nil : (mem : List ℕ) (off : ℕ) → store mem off [] ≡ mem
store-nil [] off = refl
store-nil (x ∷ mem) zero = refl
store-nil (x ∷ mem) (suc off) = ap (◌∷◌ x) (store-nil mem off)

pub length-store : (mem : List ℕ) (off : ℕ) (vs : List ℕ) → length (store mem off vs) ≡ length mem
length-store [] off vs = refl
length-store (x ∷ mem) zero [] = refl
length-store (x ∷ mem) zero (v ∷ vs) = ap suc (length-store mem zero vs)
length-store (x ∷ mem) (suc off) vs = ap suc (length-store mem off vs)

-- A write seen through a prefix, and through a suffix that starts before it.
pub take-store :
    (mem : List ℕ) (n off : ℕ) (vs : List ℕ) → take n (store mem off vs) ≡ store (take n mem) off vs
take-store mem zero off vs = refl
take-store [] (suc n) off vs = refl
take-store (x ∷ mem) (suc n) zero [] = refl
take-store (x ∷ mem) (suc n) zero (v ∷ vs) = ap (◌∷◌ v) (take-store mem n zero vs)
take-store (x ∷ mem) (suc n) (suc off) vs = ap (◌∷◌ x) (take-store mem n off vs)

pub drop-store :
    (mem : List ℕ) (n o off : ℕ) (vs : List ℕ)
    → o ≡ n + off
    → drop n (store mem o vs) ≡ store (drop n mem) off vs
drop-store mem zero o off vs h = ap (λ j. store mem j vs) (omega arith)
drop-store [] (suc n) o off vs h = refl
drop-store (x ∷ mem) (suc n) zero off vs h = absurd (omega arith)
drop-store (x ∷ mem) (suc n) (suc o) off vs h = drop-store mem n o off vs (omega arith)

pub load-store :
    (mem : List ℕ) (h n o off : ℕ) (vs : List ℕ)
    → o ≡ h + off
    → load (store mem o vs) h n ≡ store (load mem h n) off vs
load-store mem h n o off vs e = rw (drop-store mem h o off vs e) (take-store (drop h mem) n off vs)

-- Bytes written at the end of a prefix, or wholly inside it.
pub store-append :
    (xs ys : List ℕ) (off : ℕ) (vs : List ℕ)
    → off ≡ length xs
    → store (xs ++ ys) off vs ≡ xs ++ store ys 0 vs
store-append [] ys zero vs h = refl
store-append [] ys (suc off) vs h = absurd (omega arith)
store-append (x ∷ xs) ys zero vs h = absurd (omega arith)
store-append (x ∷ xs) ys (suc off) vs h = ap (◌∷◌ x) (store-append xs ys off vs (omega arith))

pub store-zero-append :
    (old ys vs : List ℕ) → length old ≡ length vs → store (old ++ ys) 0 vs ≡ vs ++ ys
store-zero-append [] [] [] h = refl
store-zero-append [] (y ∷ ys) [] h = refl
store-zero-append [] ys (v ∷ vs) h = absurd (omega arith)
store-zero-append (x ∷ old) ys [] h = absurd (omega arith)
store-zero-append (x ∷ old) ys (v ∷ vs) h = ap (◌∷◌ v) (store-zero-append old ys vs (omega arith))

pub store-zero-eq : (old vs : List ℕ) → length old ≡ length vs → store old 0 vs ≡ vs
store-zero-eq [] [] h = refl
store-zero-eq [] (v ∷ vs) h = absurd (omega arith)
store-zero-eq (x ∷ old) [] h = absurd (omega arith)
store-zero-eq (x ∷ old) (v ∷ vs) h = ap (◌∷◌ v) (store-zero-eq old vs (omega arith))

-- `n` bytes from `off` on, where the array has them.
pub length-load : (mem : List ℕ) (off n : ℕ) → off + n ≤ length mem → length (load mem off n) ≡ n
length-load mem off n h = omega (arith, length-take n (drop off mem), length-drop off mem)

-- A run of bytes that ends at the offset grows by what is written there.
pub load-store_end :
    (mem : List ℕ) (h n o k : ℕ) (vs : List ℕ)
    → o ≡ h + n
    → k ≡ n + length vs
    → h + k ≤ length mem
    → load (store mem o vs) h k ≡ load mem h n ++ vs
load-store_end mem h n o k vs e e' fits =
    rw
      (
        load-store mem h k o n vs e,
        take-add n k (length vs) (drop h mem) e',
        store-append (take n (drop h mem)) (take (length vs) (drop n (drop h mem))) n vs
            (sym (length-load mem h n (omega arith))),
      )
      (ap (λ t. take n (drop h mem) ++ t)
        (store-zero-eq (take (length vs) (drop n (drop h mem))) vs (
          omega (
            arith,
            length-take (length vs) (drop n (drop h mem)),
            length-drop n (drop h mem),
            length-drop h mem,
          ))))

-- A write that starts where a run ends leaves the run.
pub load-store_after :
    (mem : List ℕ) (h n o : ℕ) (vs : List ℕ) → h + n ≤ o → load (store mem o vs) h n ≡ load mem h n
load-store_after mem h zero o vs e = refl
load-store_after [] zero (suc n) o vs e = refl
load-store_after [] (suc h) (suc n) o vs e = refl
load-store_after (x ∷ mem) zero (suc n) zero vs e = absurd (omega arith)
load-store_after (x ∷ mem) zero (suc n) (suc o) vs e =
    ap (◌∷◌ x) (load-store_after mem zero n o vs (omega arith))
load-store_after (x ∷ mem) (suc h) (suc n) zero vs e = absurd (omega arith)
load-store_after (x ∷ mem) (suc h) (suc n) (suc o) vs e =
    load-store_after mem h (suc n) o vs (omega arith)

-- Two writes, one behind the other, and the last byte of a write.
pub store-store :
    (mem : List ℕ) (o k : ℕ) (xs ys : List ℕ)
    → k ≡ o + length xs
    → store (store mem o xs) k ys ≡ store mem o (xs ++ ys)
store-store [] o k xs ys e = refl
store-store (m ∷ mem) (suc o) zero xs ys e = absurd (omega arith)
store-store (m ∷ mem) (suc o) (suc k) xs ys e = ap (◌∷◌ m) (store-store mem o k xs ys (omega arith))
store-store (m ∷ mem) zero zero [] ys e = refl
store-store (m ∷ mem) zero (suc k) [] ys e = absurd (omega arith)
store-store (m ∷ mem) zero zero (x ∷ xs) ys e = absurd (omega arith)
store-store (m ∷ mem) zero (suc k) (x ∷ xs) ys e =
    ap (◌∷◌ x) (store-store mem zero k xs ys (omega arith))

pub get_or-store_last :
    (mem : List ℕ) (o k : ℕ) (xs : List ℕ) (v : ℕ)
    → k ≡ o + length xs
    → k < length mem
    → get_or (store mem o (xs ++ v ∷ [])) k 0 ≡ v
get_or-store_last [] o k xs v e h = absurd (omega arith)
get_or-store_last (m ∷ mem) (suc o) zero xs v e h = absurd (omega arith)
get_or-store_last (m ∷ mem) (suc o) (suc k) xs v e h =
    get_or-store_last mem o k xs v (omega arith) (omega arith)
get_or-store_last (m ∷ mem) zero zero [] v e h = refl
get_or-store_last (m ∷ mem) zero (suc k) [] v e h = absurd (omega arith)
get_or-store_last (m ∷ mem) zero zero (x ∷ xs) v e h = absurd (omega arith)
get_or-store_last (m ∷ mem) zero (suc k) (x ∷ xs) v e h =
    get_or-store_last mem zero k xs v (omega arith) (omega arith)

-- A write leaves what is before it.
pub get_or-store_before :
    (mem : List ℕ) (o k : ℕ) (xs : List ℕ) → k < o → get_or (store mem o xs) k 0 ≡ get_or mem k 0
get_or-store_before [] o k xs h = refl
get_or-store_before (m ∷ mem) zero k xs h = absurd (omega arith)
get_or-store_before (m ∷ mem) (suc o) zero xs h = refl
get_or-store_before (m ∷ mem) (suc o) (suc k) xs h = get_or-store_before mem o k xs (omega arith)

-- An array that is written from its start.
pub store_front :
    (mem xs : List ℕ) → length xs ≤ length mem → store mem 0 xs ≡ xs ++ drop (length xs) mem
store_front mem xs h =
    ap (λ t. store t 0 xs) (sym (take-append-drop (length xs) mem))
    ∙ store-zero-append (take (length xs) mem) (drop (length xs) mem) xs
        (omega (arith, length-take (length xs) mem))

pub take-store_front :
    (mem xs : List ℕ) → length xs ≤ length mem → take (length xs) (store mem 0 xs) ≡ xs
take-store_front mem xs h =
    ap (take (length xs)) (store_front mem xs h)
    ∙ take-append (length xs) xs (drop (length xs) mem) refl
