-- ===== src/Common/Text/Decimal.antt =====
-- `strconv.Itoa` and `strconv.Atoi` are inverse, and the texts that the first makes are plain digits.
use Prim.Native.Char.{Char, code}
use Prim.Native.String.{String, [], ◌∷◌, ◌++◌}
use mathlib.Core.List
use text.Mathlib.TextLemmas.{cons-append, nil-append}
use re_mazarin.Common.{
  ℕ, zero, suc, ◌+◌, ◌*◌, ◌/◌, ◌%◌, ◌≤◌, ◌<◌, ◌≡◌, Bool, true, false, ◌&&◌, some, leb, ◌==◌, arith,
  refl, ap, ◌∙◌, sym, subst, else_branch, le→leb,
}
use re_mazarin.Common.Int.{pos, max_i64}
use re_mazarin.Common.Text.{
  is_space, trim_left, cons_trimmed, trim_right, trim_space, cons_head, split, digit, emit, itoa_ℕ,
  scan, scan_number, positive, atoi,
}

abbrev is_digit : Char → Bool
is_digit c = leb b'0' (code c) && leb (code c) b'9'

abbrev pub Digits : String → Type 0
Digits [] = Unit
Digits (c ∷ s) = (is_digit c ≡ true) × Digits s

code-digit : (d : ℕ) → d < 10 → code (digit d) ≡ 48 + d
unfolding digit
code-digit zero h = refl
code-digit (suc zero) h = refl
code-digit (suc (suc zero)) h = refl
code-digit (suc (suc (suc zero))) h = refl
code-digit (suc (suc (suc (suc zero)))) h = refl
code-digit (suc (suc (suc (suc (suc zero))))) h = refl
code-digit (suc (suc (suc (suc (suc (suc zero)))))) h = refl
code-digit (suc (suc (suc (suc (suc (suc (suc zero))))))) h = refl
code-digit (suc (suc (suc (suc (suc (suc (suc (suc zero)))))))) h = refl
code-digit (suc (suc (suc (suc (suc (suc (suc (suc (suc zero))))))))) h = refl
code-digit (suc (suc (suc (suc (suc (suc (suc (suc (suc (suc n)))))))))) h = omega arith

scan-digit : (d n : ℕ) (s : String) → d < 10 → scan (digit d ∷ s) n ≡ scan s (n * 10 + d)
unfolding scan
scan-digit d n s h = ground (arith, code-digit d h)

scan-emit : (fuel n : ℕ) (out : String) → n ≤ fuel → scan (emit fuel n out) 0 ≡ scan out n
unfolding emit
scan-emit zero n out h = ap (scan out) (omega (arith, h))
scan-emit (suc fuel) n out h =
    ground
      (arith, h, scan-emit fuel (n / 10) (digit (n % 10) ∷ out), scan-digit (n % 10) (n / 10) out)

digit-is : (d : ℕ) → d < 10 → is_digit (digit d) ≡ true
digit-is d h = ground (arith, code-digit d h)

-- A text that is not empty.
abbrev pub is_text : String → Bool
is_text [] = false
is_text (c ∷ s) = true

emit-Digits : (fuel n : ℕ) (out : String) → Digits out → Digits (emit fuel n out)
unfolding emit
emit-Digits zero n out h = h
emit-Digits (suc fuel) n out h = ground (
  arith,
  h,
  emit-Digits fuel (n / 10) (digit (n % 10) ∷ out) (digit-is (n % 10) (omega arith), h),
)

emit-text : (fuel n : ℕ) (out : String) → is_text out ≡ true → is_text (emit fuel n out) ≡ true
unfolding emit
emit-text zero n out h = h
emit-text (suc fuel) n out h =
    ground (arith, h, emit-text fuel (n / 10) (digit (n % 10) ∷ out) refl)

positive_not : (k : ℕ) → (suc k == 0) ≡ false
positive_not k = ground arith

itoa_ℕ-emit : (k : ℕ) → itoa_ℕ (suc k) ≡ emit (suc (suc k)) (suc k) []
unfolding itoa_ℕ
itoa_ℕ-emit k = else_branch (suc k == 0) _ _ (positive_not k)

emit-suc :
    (fuel k : ℕ) (out : String)
    → emit (suc fuel) (suc k) out ≡ emit fuel (suc k / 10) (digit (suc k % 10) ∷ out)
unfolding emit
emit-suc fuel k out = else_branch (suc k == 0) _ _ (positive_not k)

pub itoa_ℕ-Digits : (n : ℕ) → Digits (itoa_ℕ n)
unfolding itoa_ℕ
itoa_ℕ-Digits zero = (refl, tt)
itoa_ℕ-Digits (suc k) = subst Digits (sym (itoa_ℕ-emit k)) (emit-Digits (suc (suc k)) (suc k) [] tt)

pub itoa_ℕ-text : (n : ℕ) → is_text (itoa_ℕ n) ≡ true
unfolding itoa_ℕ
itoa_ℕ-text zero = refl
itoa_ℕ-text (suc k) =
    ap is_text (itoa_ℕ-emit k ∙ emit-suc (suc k) k [])
    ∙ emit-text (suc k) (suc k / 10) (digit (suc k % 10) ∷ []) refl

scan-itoa_ℕ : (n : ℕ) → scan (itoa_ℕ n) 0 ≡ some n
unfolding scan itoa_ℕ
scan-itoa_ℕ zero = refl
scan-itoa_ℕ (suc k) =
    ap (λ s. scan s 0) (itoa_ℕ-emit k) ∙ scan-emit (suc (suc k)) (suc k) [] (omega arith)

atoi_read :
    (s : String) (n : ℕ)
    → Digits s
    → is_text s ≡ true
    → scan s 0 ≡ some n
    → n ≤ max_i64
    → atoi s ≡ some (pos n)
unfolding atoi scan_number positive
atoi_read [] n h t e b = ground arith
atoi_read (c ∷ s) n h t e b = ground (arith, h.0, e, le→leb n max_i64 b)

-- What Itoa prints of a number that an int64 holds, Atoi reads.
pub atoi-itoa_ℕ : (n : ℕ) → n ≤ max_i64 → atoi (itoa_ℕ n) ≡ some (pos n)
atoi-itoa_ℕ n h = atoi_read (itoa_ℕ n) n (itoa_ℕ-Digits n) (itoa_ℕ-text n) (scan-itoa_ℕ n) h

digit-no-space : (c : Char) → is_digit c ≡ true → is_space (code c) ≡ false
unfolding is_space
digit-no-space c h = ground (arith, h)

digit-no-comma : (c : Char) → is_digit c ≡ true → (code c == b',') ≡ false
digit-no-comma c h = ground (arith, h)

trim_right-Digits : (s : String) → Digits s → trim_right s ≡ s
unfolding trim_right cons_trimmed
trim_right-Digits [] h = refl
trim_right-Digits (c ∷ []) h = else_branch (is_space (code c)) _ _ (digit-no-space c h.0)
trim_right-Digits (c ∷ d ∷ s) h = ap (cons_trimmed c) (trim_right-Digits (d ∷ s) h.1)

pub trim_space-Digits : (s : String) → Digits s → trim_space s ≡ s
unfolding trim_space trim_left
trim_space-Digits [] h = refl
trim_space-Digits (c ∷ s) h =
    ap trim_right (else_branch (is_space (code c)) _ _ (digit-no-space c h.0))
    ∙ trim_right-Digits (c ∷ s) h

comma-append : (t : String) → "," ++ t ≡ "," ∷ t
comma-append t = cons-append "," [] t ∙ ap (λ u. "," ∷ u) (nil-append t)

split-comma : (t : String) → split b',' ("," ∷ t) ≡ List.◌∷◌ [] (split b',' t)
unfolding split
split-comma t = refl

split-other :
    (c : Char) (s : String)
    → (code c == b',') ≡ false
    → split b',' (c ∷ s) ≡ cons_head c (split b',' s)
unfolding split
split-other c s h = else_branch (code c == b',') _ _ h

pub split-Digits :
    (s t : String) → Digits s → split b',' (s ++ ("," ++ t)) ≡ List.◌∷◌ s (split b',' t)
unfolding cons_head
split-Digits [] t h = ap (split b',') (nil-append ("," ++ t) ∙ comma-append t) ∙ split-comma t
split-Digits (c ∷ s) t h =
    ap (split b',') (cons-append c s ("," ++ t))
    ∙ split-other c (s ++ ("," ++ t)) (digit-no-comma c h.0)
    ∙ ap (cons_head c) (split-Digits s t h.1)

pub split-Digits-only : (s : String) → Digits s → split b',' s ≡ List.◌∷◌ s List.[]
unfolding split cons_head
split-Digits-only [] h = refl
split-Digits-only (c ∷ s) h =
    else_branch (code c == b',') _ _ (digit-no-comma c h.0)
    ∙ ap (cons_head c) (split-Digits-only s h.1)
