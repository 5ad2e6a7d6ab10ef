-- ===== src/Logs/Archive/Slices.antt =====
-- How many archives a stream has under `append_log_chunk` (app/services/node_runtime_service.py).
use gpufleet.Prelude.{
  ℕ, zero, suc, ◌≤◌, Text, Bool, true, false, [], ◌∷◌, length, leb, ltb, arith, length-append,
  Bool-cases, inl, inr,
}
use gpufleet.Logs.Bytes.{encoded_length, take_text_prefix_by_bytes}
use gpufleet.Logs.Archive.{
  LogFiles, Appended, done, too_many_slices, out_of_fuel, ◌then_files◌, rotate_log_stream,
  rotate_if, write_chunk, room, is_empty, last_slice, append_loop, append_log_chunk,
}

-- No archive is lost, and only a stream that has all of them fails.
abbrev pub Grown : ℕ → Appended → Type 0
Grown n (done f) = n ≤ length f.archives
Grown n (too_many_slices f) = (n ≤ length f.archives) × (last_slice ≤ length f.archives)
Grown n (out_of_fuel f) = n ≤ length f.archives

then_files-Grown :
    (n : ℕ) (a : Appended) (k : LogFiles → Appended)
    → Grown n a
    → ((f : LogFiles) → n ≤ length f.archives → Grown n (k f))
    → Grown n (a then_files k)
then_files-Grown n (done f) k grown next = next f grown
then_files-Grown n (too_many_slices f) k grown next = grown
then_files-Grown n (out_of_fuel f) k grown next = grown

rotate-Grown :
    (n : ℕ) (files : LogFiles) → n ≤ length files.archives → Grown n (rotate_log_stream files)
unfolding rotate_log_stream
rotate-Grown n files h = elim (Bool-cases (is_empty files.current)) [
  | inl e ↦ rw e h
  | inr full ↦ elim (Bool-cases (ltb (length files.archives) last_slice)) [
    | inl e ↦ rw (full, e) (omega (arith, h, length-append {0} files.archives (files.current ∷ [])))
    | inr e ↦ rw (full, e) (h, ground (arith, e))
  ]
]

rotate_if-Grown :
    (n : ℕ) (b : Bool) (files : LogFiles) → n ≤ length files.archives → Grown n (rotate_if b files)
rotate_if-Grown n true files h = rotate-Grown n files h
rotate_if-Grown n false files h = h

write-Grown :
    (n max : ℕ) (files : LogFiles) (chunk : Text)
    → n ≤ length files.archives
    → Grown n (write_chunk max files chunk)
unfolding write_chunk
write-Grown n max files [] h = rotate-Grown n files h
write-Grown n max files (c ∷ chunk) h = rotate_if-Grown n _ _ h

append_loop-Grown :
    (n fuel max : ℕ) (files : LogFiles) (text : Text)
    → n ≤ length files.archives
    → Grown n (append_loop fuel max files text)
unfolding append_loop
append_loop-Grown n fuel max files [] h = h
append_loop-Grown n zero max files (c ∷ text) h = h
append_loop-Grown n (suc fuel) max files (c ∷ text) h =
    let (chunk, rest) = take_text_prefix_by_bytes (c ∷ text) (room max files) in
    let full = leb max (encoded_length files.current) in
    let write = λ (opened : LogFiles). write_chunk max opened chunk in
    then_files-Grown n (rotate_if full files then_files write)
      (λ files'. append_loop fuel max files' rest)
      (then_files-Grown n (rotate_if full files) write (rotate_if-Grown n full files h)
        (λ f k. write-Grown n max f chunk k))
      (λ f k. append_loop-Grown n fuel max f rest k)

pub append_log_chunk-Grown :
    (files : LogFiles) (text : Text) (max : ℕ)
    → Grown (length files.archives) (append_log_chunk files text max)
unfolding append_log_chunk
append_log_chunk-Grown files text max =
    append_loop-Grown (length files.archives) _ max files text (omega arith)
