-- ===== src/Discord/Listing/Paging.antt =====
-- The pages of listMessagesAfter of src/discord/discord-transport.ts, put together.
use herald_of_jams.Base.{
  ℕ, zero, suc, ◌-◌, ◌≤◌, ◌<◌, ◌≡◌, refl, sym, subst, ap, ◌∙◌, arith, Bool, true, false, Bool-cases,
  inl, inr, List, [], ◌∷◌, ◌++◌, append-nil, map, Option, none, some, ltb, ltb→lt, length,
  length-take, length-drop, take, drop, take-append-drop, select, All, All_mono,
}
use herald_of_jams.Reconciliation.{is_after}
use herald_of_jams.Discord.Intake.{GatewayMessage}
use herald_of_jams.Discord.Listing.{
  order_page, last_id, is_eligible, eligible, list_page, page_limit, list_messages_after,
}

-- A channel holds its messages by growing ids.
abbrev pub IsAscending : List GatewayMessage → Type 0
IsAscending [] = Unit {0}
IsAscending (m ∷ ms) = All (λ n. m.inbound.id < n.inbound.id) ms × IsAscending ms

-- The messages of a channel after a cursor.
abbrev pub later : Option ℕ → List GatewayMessage → List GatewayMessage
later cursor = select (λ m. is_after m.inbound.id cursor)

-- The latest hundred.
abbrev pub newest : List GatewayMessage → List GatewayMessage
newest history = drop (length history - page_limit) history

-- What a listing reaches: without a cursor the library gives the latest page.
abbrev pub reached : Option ℕ → List GatewayMessage → List GatewayMessage
reached none history = newest history
reached (some at) history = later (some at) history

module _ {ℓ} {A : Type ℓ} where
  select-all : (p : A → Bool) (xs : List A) → All (λ x. p x ≡ true) xs → select p xs ≡ xs
  select-all p [] h = refl
  select-all p (x ∷ xs) h = rw (h.0) (ap (◌∷◌ x) (select-all p xs h.1))

  select-append : (p : A → Bool) (xs ys : List A) → select p (xs ++ ys) ≡ select p xs ++ select p ys
  select-append p [] ys = refl
  select-append p (x ∷ xs) ys = elim (Bool-cases (p x)) [
    | inl h ↦ rw h (ap (◌∷◌ x) (select-append p xs ys))
    | inr h ↦ rw h (select-append p xs ys)
  ]

  select-within :
      (p q : A → Bool)
      → ((x : A) → q x ≡ true → p x ≡ true)
      → (xs : List A) → select q (select p xs) ≡ select q xs
  select-within p q h [] = refl
  select-within p q h (x ∷ xs) = elim (Bool-cases (q x)) [
    | inl here ↦ rw (h x here, here) (ap (◌∷◌ x) (select-within p q h xs))
    | inr other ↦ elim (Bool-cases (p x)) [
      | inl k ↦ rw (k, other) (select-within p q h xs)
      | inr k ↦ rw (k, other) (select-within p q h xs)
    ]
  ]

  map-append {κ} :
      {B : Type κ} (f : A → B) (xs ys : List A) → map f (xs ++ ys) ≡ map f xs ++ map f ys
  map-append f [] ys = refl
  map-append f (x ∷ xs) ys = ap (◌∷◌ (f x)) (map-append f xs ys)

eligible-append : (xs ys : List GatewayMessage) → eligible (xs ++ ys) ≡ eligible xs ++ eligible ys
eligible-append xs ys =
    ap (map (λ (m : GatewayMessage). m.inbound)) (select-append is_eligible xs ys)
    ∙ map-append _ (select is_eligible xs) (select is_eligible ys)

last_id-le :
    (n : ℕ) (m : GatewayMessage) (ms : List GatewayMessage)
    → IsAscending (m ∷ ms)
    → m.inbound.id ≤ last_id m (take n ms)
last_id-le zero m ms h = omega arith
last_id-le (suc n) m [] h = omega arith
last_id-le (suc n) m (x ∷ ms) h = omega (arith, last_id-le n x ms h.1, h.0.0)

-- What comes after the last message of the first n + 1.
later-last :
    (n : ℕ) (m : GatewayMessage) (ms : List GatewayMessage)
    → IsAscending (m ∷ ms)
    → later (some (last_id m (take n ms))) (m ∷ ms) ≡ drop n ms
later-last zero m ms h =
    let not_self : ltb m.inbound.id m.inbound.id ≡ false = ground arith in
    rw not_self (select-all _ ms (All_mono _ _ (λ x k. ground arith) ms h.0))
later-last (suc n) m [] h =
    let not_self : ltb m.inbound.id m.inbound.id ≡ false = ground arith in rw not_self refl
later-last (suc n) m (x ∷ ms) h =
    let before : ltb (last_id x (take n ms)) m.inbound.id ≡ false =
      ground (arith, last_id-le n x ms h.1, h.0.0) in
    rw before (later-last n x ms h.1)

pub IsAscending-later :
    (cursor : Option ℕ) (ms : List GatewayMessage) → IsAscending ms → IsAscending (later cursor ms)
IsAscending-later cursor [] h = tt
IsAscending-later cursor (m ∷ ms) h = elim (Bool-cases (is_after m.inbound.id cursor)) [
  | inl keep ↦ rw keep (All-select _ _ ms h.0, IsAscending-later cursor ms h.1)
  | inr skip ↦ rw skip (IsAscending-later cursor ms h.1)
]
  where
    All-select :
        (P : GatewayMessage → Type 0) (p : GatewayMessage → Bool) (ms : List GatewayMessage)
        → All P ms
        → All P (select p ms)
    All-select P p [] a = tt
    All-select P p (m ∷ ms) a = elim (Bool-cases (p m)) [
      | inl h ↦ rw (All, h) (a.0, All-select P p ms a.1)
      | inr h ↦ rw h (All-select P p ms a.1)
    ]

take-whole : (n : ℕ) (xs : List GatewayMessage) → length xs ≤ n → take n xs ≡ xs
take-whole zero [] h = refl
take-whole zero (x ∷ xs) h = absurd (omega (arith, h))
take-whole (suc n) [] h = refl
take-whole (suc n) (x ∷ xs) h = ap (◌∷◌ x) (take-whole n xs (omega (arith, h)))

short_page :
    (m : GatewayMessage) (ms : List GatewayMessage)
    → ltb (length (m ∷ take 99 ms)) page_limit ≡ true
    → length ms ≤ 99
short_page m ms h = omega (arith, ltb→lt _ _ h, length-take {A = GatewayMessage} 99 ms)

drop-whole : (xs : List GatewayMessage) → drop (length xs) xs ≡ []
drop-whole [] = refl
drop-whole (x ∷ xs) = drop-whole xs

-- Nothing comes after the last message.
later-none :
    (m : GatewayMessage) (ms : List GatewayMessage)
    → IsAscending (m ∷ ms)
    → later (some (last_id m ms)) (m ∷ ms) ≡ []
later-none m ms h =
    ap (λ page. later (some (last_id m page)) (m ∷ ms))
      (sym (take-whole (length ms) ms (omega arith)))
    ∙ later-last (length ms) m ms h
    ∙ drop-whole ms

drop-nil : (n : ℕ) → drop {A = GatewayMessage} n [] ≡ []
drop-nil zero = refl
drop-nil (suc n) = refl

last_id-drop :
    (n : ℕ) (h : GatewayMessage) (hs : List GatewayMessage) (m : GatewayMessage)
    (ms : List GatewayMessage)
    → drop n (h ∷ hs) ≡ m ∷ ms
    → last_id m ms ≡ last_id h hs
last_id-drop zero h hs m ms e =
    let same : h ≡ m = cc in let rest : hs ≡ ms = cc in rw (same, rest) refl
last_id-drop (suc n) h [] m ms e = let empty = drop-nil n in cc
last_id-drop (suc n) h (x ∷ hs) m ms e = last_id-drop n x hs m ms e

-- Nothing comes after the latest messages.
later-newest :
    (n : ℕ) (history : List GatewayMessage) (m : GatewayMessage) (ms : List GatewayMessage)
    → IsAscending history
    → drop n history ≡ m ∷ ms
    → later (some (last_id m ms)) history ≡ []
later-newest n [] m ms h e = refl
later-newest n (x ∷ history) m ms h e =
    ap (λ at. later (some at) (x ∷ history)) (last_id-drop n x history m ms e)
    ∙ later-none x history h

module _ (history : List GatewayMessage) (ascending : IsAscending history)
    (fetch : Option ℕ → List GatewayMessage) (latest : order_page (fetch none) ≡ newest history)
    (pages : (at : ℕ)
      → order_page (fetch (some at)) ≡ take page_limit (later (some at) history)) where
  -- After the first page from a cursor comes what the next page starts with.
  later-page :
      (cursor : Option ℕ) (m : GatewayMessage) (ms : List GatewayMessage)
      → later cursor history ≡ m ∷ ms
      → later (some (last_id m (take 99 ms))) history ≡ drop 99 ms
  later-page cursor m ms e =
      let rising = subst IsAscending e (IsAscending-later cursor history ascending) in
      let first : is_after m.inbound.id cursor ≡ true = head_passes cursor history m ms e in
      sym (
        select-within (λ x. is_after x.inbound.id cursor) _
          (λ x after. passes cursor m x (take 99 ms) first (last_id-le 99 m ms rising) after)
          history)
      ∙ ap (later (some (last_id m (take 99 ms)))) e
      ∙ later-last 99 m ms rising
    where
      head_passes :
          (cursor : Option ℕ) (hs : List GatewayMessage) (m : GatewayMessage)
          (ms : List GatewayMessage)
          → later cursor hs ≡ m ∷ ms
          → is_after m.inbound.id cursor ≡ true
      head_passes cursor [] m ms e = cc
      head_passes cursor (h ∷ hs) m ms e = elim (Bool-cases (is_after h.inbound.id cursor)) [
        | inl keep ↦
            let e' = rw keep at e in
            let same : h ≡ m = cc in subst (λ x. is_after x.inbound.id cursor ≡ true) same keep
        | inr skip ↦ head_passes cursor hs m ms (rw skip at e)
      ]

      passes :
          (cursor : Option ℕ) (m x : GatewayMessage) (page : List GatewayMessage)
          → is_after m.inbound.id cursor ≡ true
          → m.inbound.id ≤ last_id m page
          → ltb (last_id m page) x.inbound.id ≡ true
          → is_after x.inbound.id cursor ≡ true
      passes none m x page first le after = refl
      passes (some at) m x page first le after = ground (arith, le, after, first)

  page_listed :
      (fuel : ℕ) (cursor : Option ℕ) (w : List GatewayMessage)
      → later cursor history ≡ w
      → length w < suc fuel
      → ((next : ℕ)
          → length (later (some next) history) < fuel
          → list_messages_after fetch fuel (some next) ≡ eligible (later (some next) history))
      → list_page (λ next. list_messages_after fetch fuel next) (take page_limit w) ≡ eligible w
  page_listed fuel cursor [] e k again = refl
  page_listed fuel cursor (m ∷ ms) e k again =
      let follows = later-page cursor m ms e in
      elim (Bool-cases (ltb (length (m ∷ take 99 ms)) page_limit)) [
        | inl last ↦
            let whole : take 99 ms ≡ ms = take-whole 99 ms (short_page m ms last) in
            rw (last, append-nil (eligible (m ∷ take 99 ms))) (ap (λ xs. eligible (m ∷ xs)) whole)
        | inr full ↦
            let rest =
              again (last_id m (take 99 ms)) (
                subst (λ xs. length xs < fuel) (sym follows)
                  (omega (arith, length-drop {A = GatewayMessage} 99 ms, k)))
              ∙ ap eligible follows in
            rw (full, rest)
              (sym (eligible-append (m ∷ take 99 ms) (drop 99 ms))
                ∙ ap (λ xs. eligible (m ∷ xs)) (take-append-drop 99 ms))
      ]

  listed_after :
      (fuel at : ℕ)
      → length (later (some at) history) < fuel
      → list_messages_after fetch fuel (some at) ≡ eligible (later (some at) history)
  unfolding list_messages_after
  listed_after zero at h = absurd (omega (arith, h))
  listed_after (suc fuel) at h =
      ap (list_page (λ next. list_messages_after fetch fuel next)) (pages at)
      ∙ page_listed fuel (some at) (later (some at) history) refl h
          (λ next k. listed_after fuel next k)

  newest_listed :
      (fuel : ℕ) (w : List GatewayMessage)
      → newest history ≡ w
      → length w < suc fuel
      → list_page (λ next. list_messages_after fetch fuel next) w ≡ eligible w
  newest_listed fuel [] e k = refl
  newest_listed fuel (m ∷ ms) e k = elim (Bool-cases (ltb (length (m ∷ ms)) page_limit)) [
    | inl last ↦ rw (last, append-nil (eligible (m ∷ ms))) refl
    | inr full ↦
        let over = later-newest (length history - page_limit) history m ms ascending e in
        let rest =
          listed_after fuel (last_id m ms) (rw (over) (ground (arith, k, full)))
          ∙ ap eligible over in
        rw (full, rest) (append-nil (eligible (m ∷ ms)))
  ]

  -- The ids of the channel grow; a page that is fetched after a message holds, once ordered, the
  -- first hundred messages after it, and a page that is fetched without a cursor the latest hundred
  -- of the channel. Then a listing with fuel for more pages than it reaches messages gives the
  -- messages of players, in their order: those after the cursor, or, without a cursor, those among
  -- the latest hundred.
  pub list_messages_after-reached :
      (fuel : ℕ) (cursor : Option ℕ)
      → length (reached cursor history) < fuel
      → list_messages_after fetch fuel cursor ≡ eligible (reached cursor history)
  unfolding list_messages_after
  list_messages_after-reached zero cursor h = absurd (omega (arith, h))
  list_messages_after-reached (suc fuel) none h =
      ap (list_page (λ next. list_messages_after fetch fuel next)) latest
      ∙ newest_listed fuel (newest history) refl h
  list_messages_after-reached (suc fuel) (some at) h = listed_after (suc fuel) at h
