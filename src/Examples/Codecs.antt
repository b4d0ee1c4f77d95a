-- ===== src/Examples/Codecs.antt =====
-- Codecs of identifiers and page tokens: numbers in unary after a sign.
use Prim.Native.String as S
use Prim.Native.Char.{code}
use feedium.Prelude.{
  ℕ, zero, suc, String, ◌+◌, ◌≡◌, refl, ap, ◌∙◌, arith, Option, none, some, ◌==◌, str_eq,
  str_eq_iff, Bool-cases, inl, inr, false, if◌then◌else◌,
}
use feedium.Uuid.{UuidCodec}
use feedium.Pages.{TokenCodec}

-- `v` n times, and `i` n times.
abbrev pub vs : ℕ → String → String
vs zero s = s
vs (suc n) s = S.◌∷◌ "v" (vs n s)

abbrev is : ℕ → String
is zero = S.[]
is (suc n) = S.◌∷◌ "i" (is n)

abbrev count_code : ℕ → String → ℕ
count_code k S.[] = 0
count_code k (S.◌∷◌ c s) = let rest = count_code k s in if code c == k then suc rest else rest

abbrev signed {ℓ} : {A : Type ℓ} → (String → A) → String → Option A
signed f S.[] = none
signed f (S.◌∷◌ c s) = if code c == 35 then some (f s) else none

count_v-vs : (n : ℕ) (s : String) → count_code 105 (vs n s) ≡ count_code 105 s
count_v-vs zero s = refl
count_v-vs (suc n) s = count_v-vs n s

count_v-is : (n : ℕ) → count_code 118 (is n) ≡ 0
count_v-is zero = refl
count_v-is (suc n) = count_v-is n

count_v : (n : ℕ) (s : String) → count_code 118 (vs n s) ≡ n + count_code 118 s
count_v zero s = omega arith
count_v (suc n) s = omega (arith, count_v n s)

pub count_i : (n : ℕ) → count_code 105 (is n) ≡ n
count_i zero = refl
count_i (suc n) = ap (λ k. suc k) (count_i n)

abbrev pub print : ℕ → String
print u = S.◌∷◌ "#" (is u)

abbrev pub codec : UuidCodec
codec = record {
  parse = signed (count_code 105);
  to_string = print;
  parse-to_string = λ u. ap some (count_i u);
}

abbrev print_token : ℕ → ℕ → String
print_token v i = S.◌∷◌ "#" (vs v (is i))

pub read_token-print :
    (v i : ℕ) → ◌≡◌ {A = ℕ × ℕ} (count_code 118 (vs v (is i)), count_code 105 (vs v (is i))) (v, i)
read_token-print v i =
    let a : count_code 118 (vs v (is i)) ≡ v = omega (arith, count_v v (is i), count_v-is i) in
    let b : count_code 105 (vs v (is i)) ≡ i = count_v-vs v (is i) ∙ count_i i in rw (a, b) refl

pub filled : (s : String) → str_eq (S.◌∷◌ "#" s) "" ≡ false
filled s = elim (Bool-cases (str_eq (S.◌∷◌ "#" s) "")) [
  | inl e ↦ let wrong : S.◌∷◌ "#" s ≡ "" = (str_eq_iff (S.◌∷◌ "#" s) "").0 e in cc
  | inr e ↦ e
]

abbrev pub tokens : TokenCodec
tokens = record {
  encode_page_token = print_token;
  decode_page_token = signed (λ s. (count_code 118 s, count_code 105 s));
  decode-encode = λ v i. ap some (read_token-print v i);
  encode-filled = λ v i. filled (vs v (is i));
}
