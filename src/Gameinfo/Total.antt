-- ===== src/Gameinfo/Total.antt =====
-- gameinfo.cc: the loops of load_info_internal end.
use advancescan.Base.{
  Bool-cases, Bytes, ap, arith, inl, inr, length, refl, suc, sym, zero, ℕ, ◌+◌, ◌<◌, ◌∙◌, ◌≡◌, ◌≤◌,
  ◌⊎◌,
}
use advancescan.Gameinfo.{
  LoopCase, Parse, and_then, expect, fields, fields_loop, has_read, in_parentheses, loop_case,
  loop_ends, not_a_field, one_more, read_text, refusal, same_token, skip_field,
}
use advancescan.Readinfo.{
  InfoToken, Scanned, info_close, info_eof, info_error, info_open, info_string, info_symbol,
  is_error, next_token, text_get,
}
use advancescan.Readinfo.Progress.{
  Took, Took-shorter, info_skip_value-total, next_token-Took, next_token-stream,
}

-- a part of the reader that ends, with no more of the stream than there was
pub data Fine {ℓ} {A : Type ℓ} (n : ℕ) : Parse (Scanned × A) → Type ℓ where
  fine_refusal : Fine n refusal
  fine_read : (v : Scanned) (a : A) → length v.stream ≤ n → Fine n (has_read (v, a))

abbrev pub IsField {ℓ} : {A : Type ℓ} → (Scanned → A → Parse (Scanned × A)) → Type ℓ
IsField {A = A} field = (t : Scanned) (a : A) → Fine (length t.stream) (field t a)

pub Fine-less {ℓ} : {A : Type ℓ} {m n : ℕ} (p : Parse (Scanned × A)) → m ≤ n → Fine m p → Fine n p
Fine-less _ h fine_refusal = fine_refusal
Fine-less _ h (fine_read v a k) = fine_read v a (omega arith)

pub Fine-then {ℓ κ} :
    {A : Type ℓ} {B : Type κ} (n : ℕ) (p : Parse (Scanned × A))
    (k : Scanned × A → Parse (Scanned × B))
    → Fine n p
    → ((v : Scanned) (a : A) → length v.stream ≤ n → Fine n (k (v, a)))
    → Fine n (and_then p k)
Fine-then n _ k fine_refusal h = fine_refusal
Fine-then n _ k (fine_read v a l) h = h v a l

loop_case_eof : (end : InfoToken) → loop_case end info_eof ≡ one_more → ⊥
loop_case_eof info_error e = cc e
loop_case_eof info_eof e = cc e
loop_case_eof info_symbol e = cc e
loop_case_eof info_open e = cc e
loop_case_eof info_close e = cc e
loop_case_eof info_string e = cc e

module _ {ℓ} {A : Type ℓ} (field : Scanned → A → Parse (Scanned × A)) (is_field : IsField field)
    (end : InfoToken) where
  -- one round, where the rounds behind it are fine
  fields_loop-step :
      (fuel : ℕ) (s : Bytes) (t : Scanned) (a : A) (c : LoopCase)
      → loop_case end t.token ≡ c
      → Took s t
      → length s < suc fuel
      → ((u : Bytes) (t1 : Scanned) (b : A)
          → Took u t1
          → length u < fuel
          → Fine (length t1.stream) (fields_loop field end fuel t1 b))
      → Fine (length t.stream) (fields_loop field end (suc fuel) t a)
  unfolding fields_loop
  fields_loop-step fuel s t a loop_ends e k h ih = rw (e, fields_loop) (fine_read t a (omega arith))
  fields_loop-step fuel s t a not_a_field e k h ih = rw (e, fields_loop) fine_refusal
  fields_loop-step fuel s t a one_more e k h ih =
      let less = Took-shorter k (λ q. loop_case_eof end (ap (loop_case end) (sym q) ∙ e)) in
      rw (e, fields_loop)
        (Fine-then (length t.stream) (field t a)
          (λ p. fields_loop field end fuel (next_token (p.0)) (p.1)) (is_field t a)
          (λ v b l.
            let m = next_token-stream v in
            Fine-less (fields_loop field end fuel (next_token v) b) (omega arith)
              (ih v.stream (next_token v) b (next_token-Took v) (omega arith))))

  fields_loop-Fine :
      (fuel : ℕ) (s : Bytes) (t : Scanned) (a : A)
      → Took s t
      → length s < fuel
      → Fine (length t.stream) (fields_loop field end fuel t a)
  fields_loop-Fine zero s t a k h = absurd (omega arith)
  fields_loop-Fine (suc fuel) s t a k h =
      fields_loop-step fuel s t a (loop_case end t.token) refl k h (fields_loop-Fine fuel)

  pub fields-Fine : (t : Scanned) (a : A) → Fine (length t.stream) (fields field end t a)
  fields-Fine t a =
      let m = next_token-stream t in
      Fine-less (fields field end t a) m (
        fields_loop-Fine (length t.stream + 1) t.stream (next_token t) a (next_token-Took t)
          (omega arith))

-- a part that is not spent
pub data Ends {ℓ} {A : Type ℓ} : Parse A → Type ℓ where
  refuses : Ends refusal
  accepts : (a : A) → Ends (has_read a)

expect_cases :
    (w : InfoToken) (t : Scanned) → (expect w t ≡ refusal) ⊎ (expect w t ≡ has_read (next_token t))
unfolding expect
expect_cases w t = elim (Bool-cases (same_token (next_token t).token w)) [
  | inl e ↦ inr (rw e refl)
  | inr e ↦ inl (rw e refl)
]

text_then-Fine {ℓ} :
    {A : Type ℓ} (n : ℕ) (v : Scanned) (p : Parse A)
    → length v.stream ≤ n
    → Ends p
    → Fine n (and_then p (λ a. has_read (v, a)))
text_then-Fine n v _ h refuses = fine_refusal
text_then-Fine n v _ h (accepts a) = fine_read v a h

pub read_text-Fine {ℓ} :
    {A : Type ℓ} (w : InfoToken) (t : Scanned) (use_text : Bytes → Parse A)
    → ((text : Bytes) → Ends (use_text text))
    → Fine (length t.stream) (read_text w t use_text)
unfolding read_text
read_text-Fine w t use_text h = elim (expect_cases w t) [
  | inl e ↦ rw (e, read_text) fine_refusal
  | inr e ↦
      let v = next_token t in
      rw (e, read_text)
        (text_then-Fine (length t.stream) v (use_text (text_get v.info_buf)) (next_token-stream t)
          (h (text_get v.info_buf)))
]

pub skip_field-Fine {ℓ} :
    {A : Type ℓ} (t : Scanned) (a : A) → Fine (length t.stream) (skip_field t a)
unfolding skip_field
skip_field-Fine t a =
    let (r, e, h) = info_skip_value-total t.stream t.place in
    elim (Bool-cases (is_error r.token)) [
      | inl x ↦ rw (e, skip_field) (rw x fine_refusal)
      | inr x ↦ rw (e, skip_field) (rw x (fine_read r a h))
    ]

pub in_parentheses-Fine {ℓ} :
    {A : Type ℓ} (field : Scanned → A → Parse (Scanned × A))
    → IsField field
    → (t : Scanned) (a : A) → Fine (length t.stream) (in_parentheses field t a)
unfolding in_parentheses
in_parentheses-Fine field h t a = elim (expect_cases info_open t) [
  | inl e ↦ rw (e, in_parentheses) fine_refusal
  | inr e ↦
      let o = next_token t in
      rw (e, in_parentheses)
        (Fine-less (fields field info_close o a) (next_token-stream t)
          (fields-Fine field h info_close o a))
]
