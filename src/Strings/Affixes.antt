-- ===== src/Strings/Affixes.antt =====
-- startsWith and endsWith against concatenation.
use cs_562_jvm.Base.{
  ◌≤◌, ◌<◌, ◌+◌, ◌++◌, if◌then◌else◌, ◌≡◌, true, drop, take, arith, ◌==◌, ◌-◌, false, suc, ◌∷◌, inl,
  ==_iff, ap, [], inr, refl, zero, ≡_dec, sym, some, ◌∙◌, ◌↔◌, ltb, min, ◌⊎◌, length-append,
}
use mathlib.Core.Path.{subst}
use cs_562_jvm.Strings.{
  starts_with, ends_with, ℕ, List, Bool, same_from_start, same_from_end, length, get_or,
}

both : (a b : ℕ) (rest : Bool) → (if a == b then rest else false) ≡ true → (a ≡ b) × (rest ≡ true)
both a b rest e = ground arith

-- the loop of startsWith compares the entries from `i` up to `i + n`
same_from_start_sound :
    (n i : ℕ) (prefix str : List ℕ)
    → same_from_start n i prefix str ≡ true
    → (j : ℕ) → i ≤ j
    → j < i + n
    → get_or prefix j 0 ≡ get_or str j 0
same_from_start_sound zero i prefix str e j lo hi = absurd (omega arith)
same_from_start_sound (suc n) i prefix str e j lo hi =
    let (first, rest) = both (get_or prefix i 0) (get_or str i 0) _ e in
    elim (≡_dec i j) [
      | inl p ↦ subst (λ k. get_or prefix k 0 ≡ get_or str k 0) p first
      | inr ne ↦ same_from_start_sound n (suc i) prefix str rest j (omega arith) (omega arith)
    ]

same_from_start_complete :
    (n i : ℕ) (prefix str : List ℕ)
    → ((j : ℕ) → i ≤ j → j < i + n → get_or prefix j 0 ≡ get_or str j 0)
    → same_from_start n i prefix str ≡ true
same_from_start_complete zero i prefix str h = refl
same_from_start_complete (suc n) i prefix str h =
    rw
      (
        (==_iff (get_or prefix i 0) (get_or str i 0)).1 (h i (omega arith) (omega arith)),
        same_from_start_complete n (suc i) prefix str λ j lo hi. h j (omega arith) (omega arith),
      )
      refl

-- the loop of endsWith compares the entries that are `i` up to `i + n` places before the last ones
same_from_end_sound :
    (n i : ℕ) (suffix str : List ℕ)
    → same_from_end n i suffix str ≡ true
    → (j : ℕ) → i ≤ j
    → j < i + n
    → get_or suffix (length suffix - j - 1) 0 ≡ get_or str (length str - j - 1) 0
same_from_end_sound zero i suffix str e j lo hi = absurd (omega arith)
same_from_end_sound (suc n) i suffix str e j lo hi =
    let (first, rest) =
      both (get_or suffix (length suffix - i - 1) 0) (get_or str (length str - i - 1) 0) _ e in
    elim (≡_dec i j) [
      | inl p ↦
          subst (λ k. get_or suffix (length suffix - k - 1) 0 ≡ get_or str (length str - k - 1) 0) p
            first
      | inr ne ↦ same_from_end_sound n (suc i) suffix str rest j (omega arith) (omega arith)
    ]

same_from_end_complete :
    (n i : ℕ) (suffix str : List ℕ)
    → ((j : ℕ)
        → i ≤ j
        → j < i + n
        → get_or suffix (length suffix - j - 1) 0 ≡ get_or str (length str - j - 1) 0)
    → same_from_end n i suffix str ≡ true
same_from_end_complete zero i suffix str h = refl
same_from_end_complete (suc n) i suffix str h =
    rw
      (
        (==_iff (get_or suffix (length suffix - i - 1) 0) (get_or str (length str - i - 1) 0)).1
            (h i (omega arith) (omega arith)),
        same_from_end_complete n (suc i) suffix str λ j lo hi. h j (omega arith) (omega arith),
      )
      refl

-- the entries of the first list are the first entries of the second
prefix_entries :
    (prefix str : List ℕ)
    → length prefix ≤ length str
    → ((j : ℕ) → j < length prefix → get_or prefix j 0 ≡ get_or str j 0)
    → str ≡ prefix ++ drop (length prefix) str
prefix_entries [] str le h = refl
prefix_entries (x ∷ prefix) [] le h = absurd (omega arith)
prefix_entries (x ∷ prefix) (y ∷ str) le h =
    rw (h 0 (omega arith))
      (ap (y ∷◌) (prefix_entries prefix str (omega arith) λ j l. h (suc j) (omega arith)))

entries_ext :
    (xs ys : List ℕ)
    → length xs ≡ length ys
    → ((j : ℕ) → j < length xs → get_or xs j 0 ≡ get_or ys j 0)
    → xs ≡ ys
entries_ext [] [] e h = refl
entries_ext [] (y ∷ ys) e h = absurd (omega arith)
entries_ext (x ∷ xs) [] e h = absurd (omega arith)
entries_ext (x ∷ xs) (y ∷ ys) e h =
    rw (h 0 (omega arith))
      (ap (y ∷◌) (entries_ext xs ys (omega arith) λ j lt. h (suc j) (omega arith)))

-- the entries of the first list are the last entries of the second
suffix_entries :
    (d : ℕ) (suffix str : List ℕ)
    → length str ≡ d + length suffix
    → ((j : ℕ) → j < length suffix → get_or suffix j 0 ≡ get_or str (d + j) 0)
    → str ≡ take d str ++ suffix
suffix_entries zero suffix str e h = entries_ext str suffix (omega arith) λ j lt.
    let here : 0 + j ≡ j = omega arith in
    sym (subst (λ k. get_or suffix j 0 ≡ get_or str k 0) here (h j (omega arith)))
suffix_entries (suc d) suffix [] e h = absurd (omega arith)
suffix_entries (suc d) suffix (y ∷ str) e h = ap (y ∷◌) (
    suffix_entries d suffix str (omega arith) λ j lt.
      let here : suc d + j ≡ suc (d + j) = omega arith in
      subst (λ k. get_or suffix j 0 ≡ get_or (y ∷ str) k 0) here (h j lt))

get_or-append : (xs ys : List ℕ) (j : ℕ) → get_or (xs ++ ys) (length xs + j) 0 ≡ get_or ys j 0
get_or-append [] ys j = let here : 0 + j ≡ j = omega arith in ap (λ k. get_or ys k 0) here
get_or-append (x ∷ xs) ys j =
    let here : suc (length xs) + j ≡ suc (length xs + j) = omega arith in
    ap (λ k. get_or (x ∷ (xs ++ ys)) k 0) here ∙ get_or-append xs ys j

get_or-append_lt : (xs ys : List ℕ) (j : ℕ) → j < length xs → get_or (xs ++ ys) j 0 ≡ get_or xs j 0
get_or-append_lt [] ys j h = absurd (omega arith)
get_or-append_lt (x ∷ xs) ys zero h = refl
get_or-append_lt (x ∷ xs) ys (suc j) h = get_or-append_lt xs ys j (omega arith)

-- the tests in front of both loops
tests_true :
    (a b m n : ℕ) (loop : Bool)
    → (if a == b then true else if ltb m n then false else loop) ≡ true
    → (a ≡ b) ⊎ ((n ≤ m) × (loop ≡ true))
tests_true a b m n loop e = ground arith

tests_pass :
    (a b m n : ℕ) (loop : Bool)
    → n ≤ m
    → loop ≡ true
    → (if a == b then true else if ltb m n then false else loop) ≡ true
tests_pass a b m n loop le e = ground arith

append-nil : (xs : List ℕ) → xs ≡ xs ++ []
append-nil [] = refl
append-nil (x ∷ xs) = ap (x ∷◌) (append-nil xs)

-- For strings that are the same if they lie at the same address: startsWith is true exactly if the string
-- is the prefix with something behind it.
pub starts_with-append :
    (a b : ℕ) (str prefix : List ℕ)
    → (a ≡ b → str ≡ prefix)
    → (starts_with (some (a, str)) (some (b, prefix)) ≡ true)
      ↔ ((rest : List ℕ) × (str ≡ prefix ++ rest))
unfolding starts_with
starts_with-append a b str prefix alias =
    let n = min (length prefix) (length str) in
    (
      λ e. elim (tests_true a b (length str) (length prefix) _ e) [
        | inl p ↦ ([], alias p ∙ append-nil prefix)
        | inr (le, loop) ↦ (
          drop (length prefix) str,
          prefix_entries prefix str le
              λ j lt. same_from_start_sound n 0 prefix str loop j (omega arith) (omega arith),
        )
      ],
      λ (rest, e).
          let size : length str ≡ length prefix + length rest =
            ap length e ∙ length-append prefix rest in
          tests_pass a b (length str) (length prefix) _ (omega arith) (
            same_from_start_complete n 0 prefix str λ j lo hi.
              sym (ap (λ xs. get_or xs j 0) e ∙ get_or-append_lt prefix rest j (omega arith))),
    )

-- For strings that are the same if they lie at the same address: endsWith is true exactly if the string is
-- the suffix with something before it.
pub ends_with-append :
    (a b : ℕ) (str suffix : List ℕ)
    → (a ≡ b → str ≡ suffix)
    → (ends_with (some (a, str)) (some (b, suffix)) ≡ true)
      ↔ ((rest : List ℕ) × (str ≡ rest ++ suffix))
unfolding ends_with
ends_with-append a b str suffix alias =
    let n = min (length suffix) (length str) in
    let d = length str - length suffix in
    (
      λ e. elim (tests_true a b (length str) (length suffix) _ e) [
        | inl p ↦ ([], alias p)
        | inr (le, loop) ↦ (
          take d str,
          suffix_entries d suffix str (omega arith) λ j lt.
              let i = length suffix - j - 1 in
              let e1 : j ≡ length suffix - i - 1 = omega arith in
              let e2 : length str - i - 1 ≡ d + j = omega arith in
              ap (λ k. get_or suffix k 0) e1
              ∙ same_from_end_sound n 0 suffix str loop i (omega arith) (omega arith)
              ∙ ap (λ k. get_or str k 0) e2,
        )
      ],
      λ (rest, e).
          let size : length str ≡ length rest + length suffix =
            ap length e ∙ length-append rest suffix in
          tests_pass a b (length str) (length suffix) _ (omega arith) (
            same_from_end_complete n 0 suffix str λ j lo hi.
              let e2 : length str - j - 1 ≡ length rest + (length suffix - j - 1) = omega arith in
              sym (
                ap (λ xs. get_or xs (length str - j - 1) 0) e
                ∙ ap (λ k. get_or (rest ++ suffix) k 0) e2
                ∙ get_or-append rest suffix (length suffix - j - 1))),
    )
