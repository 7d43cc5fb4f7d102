-- ===== src/Runtime/Control.antt =====
-- installControlChannel of src/runtime/control-channel.ts: lines that arrive in chunks of text.
use herald_of_jams.Base.{
  ℕ, suc, ◌≡◌, refl, sym, ap, ◌∙◌, arith, Bool, true, false, not, ◌&&◌, ◌||◌, Bool-cases, inl, inr,
  List, [], ◌∷◌, ◌++◌, append-nil, append_assoc, Text, codes, text_eq, ◌==◌, if◌then◌else◌, any,
}

-- `requests` counts the calls of requestShutdown.
pub record ControlChannel : Type 0 where
  pub buffer : Text
  pub shutdown_requested : Bool
  pub requests : ℕ

abbrev pub newline : ℕ
newline = 10

abbrev pub carriage_return : ℕ
carriage_return = 13

-- line.replace(/\r$/u, "")
unfoldable pub strip_return : Text → Text
strip_return [] = []
strip_return (c ∷ []) = if c == carriage_return then [] else c ∷ []
strip_return (c ∷ d ∷ t) = c ∷ strip_return (d ∷ t)

abbrev pub to_first : ℕ → List Text × Text → List Text × Text
to_first c ([], rest) = ([], c ∷ rest)
to_first c (line ∷ lines, rest) = ((c ∷ line) ∷ lines, rest)

-- The lines that a buffer holds whole, in their order, and what is left of it.
unfoldable pub split_lines : Text → List Text × Text
split_lines [] = ([], [])
split_lines (c ∷ t) =
    let more = split_lines t in if c == newline then ([] ∷ more.0, more.1) else to_first c more

abbrev pub is_shutdown : Text → Bool
is_shutdown line = text_eq (strip_return line) (codes "shutdown")

abbrev pub request_if : Bool → ControlChannel → ControlChannel
request_if asked s =
    if asked && not s.shutdown_requested
    then record s { shutdown_requested = true; requests = suc s.requests }
    else s

abbrev pub take_line : Text → ControlChannel → ControlChannel
take_line line s = request_if (is_shutdown line) s

unfoldable pub take_lines : List Text → ControlChannel → ControlChannel
take_lines [] s = s
take_lines (line ∷ lines) s = take_lines lines (take_line line s)

unfoldable pub on_data : Text → ControlChannel → ControlChannel
on_data chunk s =
    let split = split_lines (s.buffer ++ chunk) in
    take_lines split.0 (record s { buffer = split.1 })

abbrev pub on_chunks : List Text → ControlChannel → ControlChannel
on_chunks [] s = s
on_chunks (chunk ∷ chunks) s = on_chunks chunks (on_data chunk s)

abbrev pub new_channel : ControlChannel
new_channel = record { buffer = []; shutdown_requested = false; requests = 0 }

-- What two texts hold, from what the first leaves.
abbrev then_split : List Text × Text → Text → List Text × Text
then_split (lines, rest) t = (lines ++ (split_lines (rest ++ t)).0, (split_lines (rest ++ t)).1)

to_first-then_split :
    (c : ℕ) (split : List Text × Text) (t : Text)
    → (c == newline) ≡ false
    → to_first c (then_split split t) ≡ then_split (to_first c split) t
unfolding split_lines
to_first-then_split c ([], rest) t h = rw h refl
to_first-then_split c (line ∷ lines, rest) t h = refl

split_lines-append : (s t : Text) → split_lines (s ++ t) ≡ then_split (split_lines s) t
unfolding split_lines
split_lines-append [] t = refl
split_lines-append (c ∷ s) t = elim (Bool-cases (c == newline)) [
  | inl h ↦ rw (h, split_lines-append s t) refl
  | inr h ↦ rw (h, split_lines-append s t) (to_first-then_split c (split_lines s) t h)
]

take_lines-append :
    (ls ms : List Text) (s : ControlChannel)
    → take_lines (ls ++ ms) s ≡ take_lines ms (take_lines ls s)
unfolding take_lines
take_lines-append [] ms s = refl
take_lines-append (l ∷ ls) ms s = take_lines-append ls ms (take_line l s)

-- Taking lines leaves the buffer, and does not look at it.
take_line-buffer :
    (line b : Text) (s : ControlChannel)
    → take_line line (record s { buffer = b }) ≡ record (take_line line s) { buffer = b }
take_line-buffer line b s = elim (Bool-cases (is_shutdown line && not s.shutdown_requested)) [
  | inl h ↦ rw h refl
  | inr h ↦ rw h refl
]

take_lines-buffer :
    (ls : List Text) (b : Text) (s : ControlChannel)
    → take_lines ls (record s { buffer = b }) ≡ record (take_lines ls s) { buffer = b }
unfolding take_lines
take_lines-buffer [] b s = refl
take_lines-buffer (l ∷ ls) b s =
    ap (take_lines ls) (take_line-buffer l b s) ∙ take_lines-buffer ls b (take_line l s)

on_data-append : (a b : Text) (s : ControlChannel) → on_data b (on_data a s) ≡ on_data (a ++ b) s
unfolding on_data
on_data-append a b s =
    let first = split_lines (s.buffer ++ a) in
    let whole : split_lines (s.buffer ++ (a ++ b)) ≡ then_split first b =
      ap split_lines (sym (append_assoc s.buffer a b)) ∙ split_lines-append (s.buffer ++ a) b in
    let more = split_lines (first.1 ++ b) in
    ap (on_data b) (take_lines-buffer first.0 first.1 s)
    ∙ sym (
        ap (λ (w : List Text × Text). take_lines w.0 (record s { buffer = w.1 })) whole
        ∙ take_lines-append first.0 more.0 (record s { buffer = more.1 })
        ∙ ap (take_lines more.0) (take_lines-buffer first.0 more.1 s))

abbrev pub joined : List Text → Text
joined [] = []
joined (chunk ∷ chunks) = chunk ++ joined chunks

abbrev pub one_if : Bool → ℕ
one_if true = 1
one_if false = 0

or_false : (b : Bool) → (b || false) ≡ b
or_false b = ground arith

or_assoc : (a b c : Bool) → ((a || b) || c) ≡ (a || (b || c))
or_assoc a b c = ground arith

take_line-requests :
    (line : Text) (s : ControlChannel)
    → s.requests ≡ one_if s.shutdown_requested
    → ((take_line line s).requests ≡ one_if (take_line line s).shutdown_requested)
      × ((take_line line s).shutdown_requested ≡ (s.shutdown_requested || is_shutdown line))
take_line-requests line s h = asked (is_shutdown line) s.shutdown_requested s.requests s.buffer h
  where
    asked :
        (b r : Bool) (n : ℕ) (buffer : Text)
        → n ≡ one_if r
        → (let t =
              request_if b (record { buffer = buffer; shutdown_requested = r; requests = n }) in
            (t.requests ≡ one_if t.shutdown_requested) × (t.shutdown_requested ≡ (r || b)))
    asked true true n buffer h = (h, refl)
    asked true false n buffer h = (ap suc h, refl)
    asked false true n buffer h = (h, refl)
    asked false false n buffer h = (h, refl)

take_lines-requests :
    (ls : List Text) (s : ControlChannel)
    → s.requests ≡ one_if s.shutdown_requested
    → (take_lines ls s).requests ≡ one_if (s.shutdown_requested || any is_shutdown ls)
unfolding take_lines
take_lines-requests [] s h = h ∙ ap one_if (sym (or_false s.shutdown_requested))
take_lines-requests (l ∷ ls) s h =
    let (one, flag) = take_line-requests l s h in
    take_lines-requests ls (take_line l s) one
    ∙ ap (λ b. one_if (b || any is_shutdown ls)) flag
    ∙ ap one_if (or_assoc s.shutdown_requested (is_shutdown l) (any is_shutdown ls))

on_chunks-joined :
    (chunk : Text) (chunks : List Text) (s : ControlChannel)
    → on_chunks (chunk ∷ chunks) s ≡ on_data (chunk ++ joined chunks) s
on_chunks-joined chunk [] s = ap (λ t. on_data t s) (sym (append-nil chunk))
on_chunks-joined chunk (next ∷ chunks) s =
    on_chunks-joined next chunks (on_data chunk s) ∙ on_data-append chunk (next ++ joined chunks) s

-- However the input is cut into chunks, the shutdown is requested once if a whole line of the input
-- says so and never else, and the buffer holds what stands after the last whole line.
pub on_chunks-requests :
    (chunk : Text) (chunks : List Text)
    → ((on_chunks (chunk ∷ chunks) new_channel).requests
        ≡ one_if (any is_shutdown (split_lines (chunk ++ joined chunks)).0))
      × ((on_chunks (chunk ∷ chunks) new_channel).buffer ≡ (split_lines (chunk ++ joined chunks)).1)
unfolding on_data
on_chunks-requests chunk chunks =
    let whole = chunk ++ joined chunks in
    let split = split_lines whole in
    (
      ap (λ (t : ControlChannel). t.requests) (on_chunks-joined chunk chunks new_channel)
          ∙ take_lines-requests split.0 (record new_channel { buffer = split.1 }) refl,
      ap (λ (t : ControlChannel). t.buffer)
          (on_chunks-joined chunk chunks new_channel
            ∙ take_lines-buffer split.0 split.1 new_channel),
    )
