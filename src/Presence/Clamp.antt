-- ===== src/Presence/Clamp.antt =====
-- A text is cut between code points.
use open_vr_pair_driver.Base.{
  ℕ, zero, suc, ◌+◌, ◌-◌, ◌≤◌, ◌<◌, ◌≡◌, refl, ap, sym, ◌∙◌, true, false, List, [], ◌∷◌, ◌++◌,
  length, take, get_or, leb, if◌then◌else◌, inl, inr, Bool-cases, if_true, if_false, arith,
  length-append, get_or-append_below,
}
use open_vr_pair_driver.Presence.{is_continuation, cut_at, clamp_utf8}

-- The bytes of a code point: one that is no continuation byte, and then only such.
pub record IsCodePoint (c : List ℕ) : Type 0 where
  pub some_byte : 1 ≤ length c
  pub lead : is_continuation (get_or c 0 0) ≡ false
  pub trail : (i : ℕ) → 1 ≤ i → i < length c → is_continuation (get_or c i 0) ≡ true

abbrev pub AreCodePoints : List (List ℕ) → Type 0
AreCodePoints [] = Unit {0}
AreCodePoints (c ∷ cs) = IsCodePoint c × AreCodePoints cs

abbrev pub text : List (List ℕ) → List ℕ
text [] = []
text (c ∷ cs) = c ++ text cs

-- The code points that fit into a number of bytes, one after the other.
abbrev pub fitting : ℕ → List (List ℕ) → List (List ℕ)
fitting n [] = []
fitting n (c ∷ cs) =
    let rest = fitting (n - length c) cs in if leb (length c) n then c ∷ rest else []

get_or-append_above : (l r : List ℕ) (i : ℕ) → get_or (l ++ r) (length l + i) 0 ≡ get_or r i 0
get_or-append_above [] r i = ap (λ k. get_or r k 0) (omega arith)
get_or-append_above (x ∷ l) r i =
    ap (λ k. get_or (x ∷ (l ++ r)) k 0) {y = suc (length l + i)} (omega arith)
    ∙ get_or-append_above l r i

take-append_above : (l r : List ℕ) (n : ℕ) → take (length l + n) (l ++ r) ≡ l ++ take n r
take-append_above [] r n = ap (λ k. take k r) (omega arith)
take-append_above (x ∷ l) r n =
    ap (λ k. take k (x ∷ (l ++ r))) {y = suc (length l + n)} (omega arith)
    ∙ ap (◌∷◌ x) (take-append_above l r n)

-- Inside a code point the walk goes back to its start.
cut_at_inside : (c r : List ℕ) (n : ℕ) → IsCodePoint c → n < length c → cut_at (c ++ r) n ≡ 0
unfolding cut_at
cut_at_inside c r zero point h = refl
cut_at_inside c r (suc n) point h =
    let byte = get_or-append_below c r (suc n) 0 h in
    if_true _ (ap is_continuation byte ∙ point.trail (suc n) (omega arith) h)
    ∙ cut_at_inside c r n point (omega arith)

-- Behind a code point the walk stops at the latest at its end.
cut_at_behind :
    (c r : List ℕ) (n : ℕ)
    → IsCodePoint c
    → is_continuation (get_or r 0 0) ≡ false
    → cut_at (c ++ r) (length c + n) ≡ length c + cut_at r n
unfolding cut_at
cut_at_behind [] r n point stop = absurd (omega (arith, point.some_byte))
cut_at_behind (x ∷ c) r zero point stop =
    ap (cut_at (x ∷ (c ++ r))) {y = suc (length c)} (omega arith)
    ∙ (if_false _ (
          ap is_continuation (
            ap (λ k. get_or (x ∷ (c ++ r)) k 0) {x = suc (length c)} {y = suc (length c) + 0}
              (omega arith)
            ∙ get_or-append_above (x ∷ c) r 0)
          ∙ stop)
        ∙ omega arith)
cut_at_behind (x ∷ c) r (suc n) point stop =
    elim (Bool-cases (is_continuation (get_or r (suc n) 0))) [
      | inl more ↦
          ap (cut_at (x ∷ (c ++ r))) {y = suc (suc (length c) + n)} (omega arith)
          ∙ (if_true _ (byte ∙ more)
              ∙ (cut_at_behind (x ∷ c) r n point stop
                  ∙ ap (λ k. suc (length c) + k) (sym (if_true _ more))))
      | inr ends ↦
          ap (cut_at (x ∷ (c ++ r))) {y = suc (suc (length c) + n)} (omega arith)
          ∙ (if_false _ (byte ∙ ends)
              ∙ (omega arith ∙ ap (λ k. suc (length c) + k) (sym (if_false _ ends))))
    ]
  where
    byte :
        is_continuation (get_or ((x ∷ c) ++ r) (suc (suc (length c) + n)) 0)
        ≡ is_continuation (get_or r (suc n) 0)
    byte = ap is_continuation (
        ap (λ k. get_or (x ∷ (c ++ r)) k 0) {x = suc (suc (length c) + n)}
          {y = length (x ∷ c) + suc n} (omega arith)
        ∙ get_or-append_above (x ∷ c) r (suc n))

text_lead : (cs : List (List ℕ)) → AreCodePoints cs → is_continuation (get_or (text cs) 0 0) ≡ false
text_lead [] points = refl
text_lead ([] ∷ cs) (point, points) = absurd (omega (arith, point.some_byte))
text_lead ((b ∷ c) ∷ cs) (point, points) = point.lead

clamp_utf8-append :
    (c r : List ℕ) (n : ℕ)
    → IsCodePoint c
    → is_continuation (get_or r 0 0) ≡ false
    → length c ≤ n
    → clamp_utf8 (c ++ r) n ≡ c ++ clamp_utf8 r (n - length c)
unfolding clamp_utf8
clamp_utf8-append c r n point stop fits = elim (Bool-cases (leb (length r) (n - length c))) [
  | inl all ↦
      if_true {b = leb (length (c ++ r)) n} _ (ground (arith, all, length-append c r, fits))
      ∙ ap (λ l. c ++ l) (sym (if_true _ all))
  | inr cut ↦
      if_false {b = leb (length (c ++ r)) n} _ (ground (arith, cut, length-append c r, fits))
      ∙ (ap (λ k. take k (c ++ r))
            (ap (cut_at (c ++ r)) split ∙ cut_at_behind c r (n - length c) point stop)
          ∙ (take-append_above c r (cut_at r (n - length c))
              ∙ ap (λ l. c ++ l) (sym (if_false _ cut))))
]
  where
    split : n ≡ length c + (n - length c)
    split = omega (arith, fits)

-- ClampUtf8 of a text of whole code points keeps exactly the first of them that fit into the limit:
-- it never splits one, and it never drops more than it must.
pub clamp_utf8-fitting :
    (cs : List (List ℕ)) (n : ℕ) → AreCodePoints cs → clamp_utf8 (text cs) n ≡ text (fitting n cs)
clamp_utf8-fitting [] n points = unfold clamp_utf8 in if_true {b = leb 0 n} _ (ground arith)
clamp_utf8-fitting (c ∷ cs) n (point, points) = elim (Bool-cases (leb (length c) n)) [
  | inl fits ↦
      clamp_utf8-append c (text cs) n point (text_lead cs points) (ground (arith, fits))
      ∙ (ap (λ l. c ++ l) (clamp_utf8-fitting cs (n - length c) points)
          ∙ ap text (sym (if_true _ fits)))
  | inr long ↦
      unfold clamp_utf8 in
      (if_false {b = leb (length (c ++ text cs)) n} _
          (ground (arith, long, length-append c (text cs)))
        ∙ (ap (λ k. take k (c ++ text cs))
              (cut_at_inside c (text cs) n point (ground (arith, long)))
            ∙ ap text (sym (if_false _ long))))
]
