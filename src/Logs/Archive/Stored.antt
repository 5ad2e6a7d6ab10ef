-- ===== src/Logs/Archive/Stored.antt =====
-- The files of a stream, read as one text, under `append_log_chunk` of
-- app/services/node_runtime_service.py.
use gpufleet.Prelude.{
  ℕ, zero, suc, Text, Bool, true, false, ◌≡◌, refl, ap, sym, ◌∙◌, List, [], ◌∷◌, ◌++◌, leb, arith,
  append_assoc, append-nil,
}
use gpufleet.Logs.Bytes.{encoded_length, take_text_prefix_by_bytes}
use gpufleet.Logs.Bytes.Longest.{prefix_longest}
use gpufleet.Logs.Archive.{
  LogFiles, Appended, done, too_many_slices, out_of_fuel, ◌then_files◌, rotate_log_stream,
  rotate_if, write_chunk, room, append_loop, append_log_chunk,
}

abbrev pub flatten : List Text → Text
flatten [] = []
flatten (t ∷ ts) = t ++ flatten ts

-- The whole log of a stream.
abbrev pub contents : LogFiles → Text
contents files = flatten files.archives ++ files.current

flatten-append : (ts : List Text) (t : Text) → flatten (ts ++ t ∷ []) ≡ flatten ts ++ t
flatten-append [] t = append-nil t
flatten-append (u ∷ ts) t =
    ap (λ v. u ++ v) (flatten-append ts t) ∙ sym (append_assoc u (flatten ts) t)

then_files-done :
    (a : Appended) (k : LogFiles → Appended) (f : LogFiles)
    → (a then_files k) ≡ done f
    → (g : LogFiles) × (a ≡ done g) × (k g ≡ done f)
then_files-done (done g) k f h = (g, refl, h)
then_files-done (too_many_slices g) k f h = absurd (ground arith)
then_files-done (out_of_fuel g) k f h = absurd (ground arith)

rotate_contents :
    (files f : LogFiles) → rotate_log_stream files ≡ done f → contents f ≡ contents files
unfolding rotate_log_stream
rotate_contents files f h = ground (
  arith,
  flatten-append files.archives files.current,
  append-nil (flatten (files.archives ++ files.current ∷ [])),
)

rotate_if-contents :
    (b : Bool) (files f : LogFiles) → rotate_if b files ≡ done f → contents f ≡ contents files
rotate_if-contents true files f h = rotate_contents files f h
rotate_if-contents false files f h = ground arith

write_contents :
    (max : ℕ) (files : LogFiles) (chunk : Text) (f : LogFiles)
    → write_chunk max files chunk ≡ done f
    → contents f ≡ contents files ++ chunk
unfolding write_chunk
write_contents max files [] f h = rotate_contents files f h ∙ sym (append-nil (contents files))
write_contents max files (c ∷ chunk) f h =
    rotate_if-contents _ _ f h
    ∙ sym (append_assoc (flatten files.archives) files.current (c ∷ chunk))

append_loop-contents :
    (fuel max : ℕ) (files : LogFiles) (text : Text) (f : LogFiles)
    → append_loop fuel max files text ≡ done f
    → contents f ≡ contents files ++ text
unfolding append_loop
append_loop-contents fuel max files [] f h = ground (arith, append-nil (contents files))
append_loop-contents zero max files (c ∷ text) f h = absurd (ground arith)
append_loop-contents (suc fuel) max files (c ∷ text) f h =
    let (chunk, rest) = take_text_prefix_by_bytes (c ∷ text) (room max files) in
    let full = leb max (encoded_length files.current) in
    let write = λ (opened : LogFiles). write_chunk max opened chunk in
    let go_on = λ (files' : LogFiles). append_loop fuel max files' rest in
    let (f2, h2, h3) = then_files-done (rotate_if full files then_files write) go_on f h in
    let (f1, h1, h2') = then_files-done (rotate_if full files) write f2 h2 in
    append_loop-contents fuel max f2 rest f h3
    ∙ ap (λ t. t ++ rest)
        (write_contents max f1 chunk f2 h2'
          ∙ ap (λ t. t ++ chunk) (rotate_if-contents full files f1 h1))
    ∙ append_assoc (contents files) chunk rest
    ∙ ap (λ t. contents files ++ t) (prefix_longest (c ∷ text) (room max files)).whole

-- What is appended to a stream stands behind what it held, whole and in order, across all archives.
pub append_log_chunk-contents :
    (files : LogFiles) (text : Text) (max_stream_bytes : ℕ) (f : LogFiles)
    → append_log_chunk files text max_stream_bytes ≡ done f
    → contents f ≡ contents files ++ text
unfolding append_log_chunk
append_log_chunk-contents files text max f h = append_loop-contents _ max files text f h
