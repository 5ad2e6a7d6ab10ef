-- ===== src/Logs/Archive/Ends.antt =====
-- The rounds of the loop of `append_log_chunk` (app/services/node_runtime_service.py).
use gpufleet.Prelude.{
  ℕ, zero, suc, ◌+◌, ◌*◌, ◌≤◌, ◌<◌, Text, Bool, true, false, ◌≡◌, refl, subst, ap, sym, ◌∙◌, List,
  [], ◌∷◌, ◌++◌, length, leb, arith, length-append, ltb, Bool-cases, ◌≢◌, ◌⊎◌, inl, inr,
}
use gpufleet.Logs.Bytes.{char_bytes, encoded_length, take_text_prefix_by_bytes}
use gpufleet.Logs.Bytes.Longest.{LongestPrefix, prefix_longest}
use gpufleet.Logs.Archive.{
  LogFiles, Appended, done, too_many_slices, out_of_fuel, ◌then_files◌, rotate_log_stream,
  rotate_if, write_chunk, room, is_empty, last_slice, append_loop, append_log_chunk,
}

-- The loop ended by itself, or by the error of the code.
abbrev pub Ends : Appended → Type 0
Ends (done f) = Unit {0}
Ends (too_many_slices f) = Unit {0}
Ends (out_of_fuel f) = ⊥

char_bytes-le : (c : ℕ) → char_bytes c ≤ 4
char_bytes-le c = ground arith

-- Fuel for two rounds a code point; one less where the file is empty.
abbrev Enough : ℕ → LogFiles → Text → Type 0
Enough fuel files text =
    (2 * length text ≤ fuel) ⊎ ((files.current ≡ []) × (2 * length text ≤ fuel + 1))

is_empty-eq : (t : Text) → is_empty t ≡ true → t ≡ []
is_empty-eq [] h = refl
is_empty-eq (c ∷ t) h = absurd (ground arith)

-- A rotation leaves an empty file, or fails.
rotate_cases :
    (files : LogFiles)
    → (rotate_log_stream files ≡ too_many_slices files)
      ⊎ ((f : LogFiles) × (rotate_log_stream files ≡ done f) × (f.current ≡ []))
unfolding rotate_log_stream
rotate_cases files = elim (Bool-cases (is_empty files.current)) [
  | inl e ↦ inr (files, ground (arith, e), is_empty-eq files.current e)
  | inr full ↦ elim (Bool-cases (ltb (length files.archives) last_slice)) [
    | inl e ↦ inr (
      record { archives = files.archives ++ files.current ∷ []; current = [] },
      ground (arith, full, e),
      refl,
    )
    | inr e ↦ inl (ground (arith, full, e))
  ]
]

rotate_Ends :
    (files : LogFiles) (k : LogFiles → Appended)
    → ((f : LogFiles) → f.current ≡ [] → Ends (k f))
    → Ends (rotate_log_stream files then_files k)
rotate_Ends files k h = elim (rotate_cases files) [
  | inl e ↦ rw e tt
  | inr (f, e, empty) ↦ rw e (h f empty)
]

rotate_if-Ends :
    (b : Bool) (files : LogFiles) (k : LogFiles → Appended)
    → ((f : LogFiles) → (b ≡ false → f ≡ files) → Ends (k f))
    → Ends (rotate_if b files then_files k)
rotate_if-Ends true files k h = rotate_Ends files k λ f _. h f (λ e. absurd (ground arith))
rotate_if-Ends false files k h = h files (λ _. refl)

then_files_assoc :
    (a : Appended) (k m : LogFiles → Appended)
    → (a then_files k then_files m) ≡ (a then_files (λ f. k f then_files m))
then_files_assoc (done f) k m = refl
then_files_assoc (too_many_slices f) k m = refl
then_files_assoc (out_of_fuel f) k m = refl

write_Ends :
    (fuel max : ℕ) (files : LogFiles) (chunk rest text : Text) (k : LogFiles → Appended)
    → chunk ++ rest ≡ text
    → (chunk ≡ [] → 2 * length text ≤ suc fuel)
    → 2 * length text ≤ suc (suc fuel)
    → ((f : LogFiles) → Enough fuel f rest → Ends (k f))
    → Ends (write_chunk max files chunk then_files k)
unfolding write_chunk
write_Ends fuel max files [] rest text k whole stuck enough h =
    rotate_Ends files k λ f empty. h f (inr (empty, omega (arith, stuck refl, ap length whole)))
write_Ends fuel max files (c ∷ chunk) rest text k whole stuck enough h =
    rotate_if-Ends _ _ k
      λ f _. h f (inl (omega (arith, ap length whole, length-append {0} chunk rest)))

fuel_bound :
    (fuel : ℕ) (files : LogFiles) (text : Text)
    → Enough fuel files text
    → 2 * length text ≤ fuel + 1
fuel_bound fuel files text (inl h) = omega arith
fuel_bound fuel files text (inr h) = h.1

-- A code point finds room in an empty file.
stuck_bound :
    (fuel max : ℕ) (files : LogFiles) (text chunk rest : Text)
    → 4 ≤ max
    → text ≢ []
    → LongestPrefix text (room max files) chunk rest
    → Enough fuel files text
    → chunk ≡ []
    → 2 * length text ≤ fuel
unfolding encoded_length
stuck_bound fuel max files text chunk rest wide some_text cut (inl h) none = h
stuck_bound fuel max files text chunk [] wide some_text cut (inr h) none =
    absurd (some_text (sym cut.whole ∙ rw none refl))
stuck_bound fuel max files text chunk (c ∷ rest) wide some_text cut (inr h) none =
    absurd (ground (arith, cut.maximal c rest refl, char_bytes-le c, h.0))

append_loop-Ends :
    (fuel max : ℕ) (files : LogFiles) (text : Text)
    → 4 ≤ max
    → Enough fuel files text
    → Ends (append_loop fuel max files text)
unfolding append_loop
append_loop-Ends fuel max files [] wide enough = tt
append_loop-Ends zero max files (c ∷ text) wide enough =
    absurd (omega (arith, fuel_bound 0 files (c ∷ text) enough))
append_loop-Ends (suc fuel) max files (c ∷ text) wide enough =
    let (chunk, rest) = take_text_prefix_by_bytes (c ∷ text) (room max files) in
    let cut : LongestPrefix (c ∷ text) (room max files) chunk rest =
      prefix_longest (c ∷ text) (room max files) in
    let write = λ (opened : LogFiles). write_chunk max opened chunk in
    let go_on = λ (f : LogFiles). append_loop fuel max f rest in
    subst Ends
      (sym
        (then_files_assoc (rotate_if (leb max (encoded_length files.current)) files) write go_on))
      (rotate_if-Ends (leb max (encoded_length files.current)) files (λ f. write f then_files go_on)
        λ opened _.
          write_Ends fuel max opened chunk rest (c ∷ text) go_on cut.whole
            (stuck_bound (suc fuel) max files (c ∷ text) chunk rest wide
              (λ e. absurd (ground arith)) cut enough)
            (omega (arith, fuel_bound (suc fuel) files (c ∷ text) enough))
            λ f left. append_loop-Ends fuel max f rest wide left)

-- With a limit of at least four bytes, the longest code point, the loop ends on every text and from
-- every state of the files.
pub append_log_chunk-Ends :
    (files : LogFiles) (text : Text) (max_stream_bytes : ℕ)
    → 4 ≤ max_stream_bytes
    → Ends (append_log_chunk files text max_stream_bytes)
unfolding append_log_chunk
append_log_chunk-Ends files text max wide =
    append_loop-Ends (2 * length text) max files text wide (inl (omega arith))

rotate_empty :
    (archives : List Text)
    → (max : ℕ)
    → write_chunk max (record { archives = archives; current = [] }) []
      ≡ done (record { archives = archives; current = [] })
unfolding write_chunk rotate_log_stream
rotate_empty archives max = refl

rotate_if_empty :
    (b : Bool) (archives : List Text)
    → rotate_if b (record { archives = archives; current = [] })
      ≡ done (record { archives = archives; current = [] })
unfolding rotate_log_stream
rotate_if_empty true archives = refl
rotate_if_empty false archives = refl

room_of_empty :
    (max : ℕ) (archives : List Text) (c : ℕ)
    → max < char_bytes c
    → room max (record { archives = archives; current = [] }) < char_bytes c
unfolding encoded_length
room_of_empty max archives c small = ground arith

stuck_prefix :
    (byte_limit c : ℕ) (text prefix rest : Text)
    → byte_limit < char_bytes c
    → LongestPrefix (c ∷ text) byte_limit prefix rest
    → (prefix ≡ []) × (rest ≡ c ∷ text)
unfolding encoded_length
stuck_prefix byte_limit c text [] rest small cut = (refl, cut.whole)
stuck_prefix byte_limit c text (d ∷ prefix) rest small cut =
    absurd (ground (arith, cut.whole, cut.fitting))

-- With a limit below the size of the first code point, it goes round for ever: from an empty file no
-- number of rounds is enough.
pub narrow_limit_loops :
    (fuel max : ℕ) (archives : List Text) (c : ℕ) (text : Text)
    → max < char_bytes c
    → append_loop fuel max (record { archives = archives; current = [] }) (c ∷ text)
      ≡ out_of_fuel (record { archives = archives; current = [] })
unfolding append_loop
narrow_limit_loops zero max archives c text small = refl
narrow_limit_loops (suc fuel) max archives c text small =
    let files : LogFiles = record { archives = archives; current = [] } in
    let (no_chunk, all_left) =
      stuck_prefix (room max files) c text _ _ (room_of_empty max archives c small)
        (prefix_longest (c ∷ text) (room max files)) in
    rw
      (
        no_chunk,
        all_left,
        rotate_if_empty (leb max (encoded_length [])) archives,
        rotate_empty archives max,
      )
      (narrow_limit_loops fuel max archives c text small)
