-- ===== src/Logs/Chunk/Prefix.antt =====
-- The stored log beside the log that the node has, under `task_log_chunk` of
-- app/services/node_runtime_service.py.
use gpufleet.Prelude.{
  ℕ, ◌+◌, ◌-◌, ◌≤◌, max, String, Text, Bool, true, false, ◌≡◌, refl, subst, ap, ap₂, ◌⊎◌, sym, ◌∙◌,
  Option, none, some, [], ◌++◌, length, take, drop, take_last, leb, arith, Bool-cases, inl, inr,
  length-take, drop_all, drop_none, append-nil, drop-take, drop-drop, take-add, take_last-append,
}
use gpufleet.Logs.Archive.{
  LogFiles, Appended, done, too_many_slices, out_of_fuel, append_log_chunk, last_slice,
}
use gpufleet.Logs.Archive.Slices.{Grown, append_log_chunk-Grown}
use gpufleet.Logs.Archive.Stored.{contents, append_log_chunk-contents}
use gpufleet.Logs.Archive.Ends.{Ends, append_log_chunk-Ends}
use gpufleet.Logs.Chunk.{
  no_slice_left, LogRow, LogChunk, LogSettings, LogState, LogReply, stored, NewText, append, refuse,
  new_text, truncated, over_quota, mark_log_truncated, stored_row, store_text, task_log_chunk,
  append_text_of,
}

abbrev pub offset : Option LogRow → ℕ
offset none = 0
offset (some row) = row.last_offset

abbrev pub preview : Option LogRow → Text
preview none = []
preview (some row) = row.preview_text

-- A chunk that is cut from the source, at the place that it names.
abbrev pub IsSlice : Text → LogChunk → Type 0
IsSlice source c =
    (c.offset_start + length c.text ≤ length source)
    × (c.text ≡ take (length c.text) (drop c.offset_start source))

-- The stored log is the part of the source before the offset, and the preview its end.
pub record Synced (source : Text) (row : Option LogRow) (files : LogFiles) : Type 0 where
  pub offset_inside : offset row ≤ length source
  pub stored_prefix : contents files ≡ take (offset row) source
  pub preview_end : preview row ≡ take_last 4000 (contents files)

-- What a slice adds to the part of the source before `n`.
slice_lem :
    (source : Text) (n start len : ℕ)
    → start ≤ n
    → n ≤ length source
    → take n source ++ drop (n - start) (take len (drop start source))
      ≡ take (max n (start + len)) source
slice_lem source n start len h k = elim (Bool-cases (leb (start + len) n)) [
  | inl old ↦
      ap (λ t. take n source ++ t)
        (drop_all (n - start) (take len (drop start source))
          (ground (arith, length-take len (drop start source))))
      ∙ append-nil (take n source)
      ∙ ap (λ i. take i source) (ground arith)
  | inr new ↦
      ap (λ t. take n source ++ t)
        (drop-take (n - start) len (drop start source)
          ∙ ap (λ t. take (len - (n - start)) t)
              (drop-drop (n - start) start source ∙ ap (λ i. drop i source) (omega arith)))
      ∙ sym (take-add n (len - (n - start)) source)
      ∙ ap (λ i. take i source) (ground arith)
]

-- The new text of an accepted offset, in one form: the chunk without what is stored already.
new_text_lem :
    (row : Option LogRow) (c : LogChunk) (t : Text)
    → new_text row c ≡ append t
    → (c.offset_start ≤ offset row) × (t ≡ drop (offset row - c.offset_start) c.text)
unfolding new_text
new_text_lem none c t h =
    let start : c.offset_start ≡ 0 = ground arith in (omega (arith, start), rw start (ground arith))
new_text_lem (some row) c t h = ground (
  arith,
  drop_all (row.last_offset - c.offset_start) c.text,
  drop_none (row.last_offset - c.offset_start) c.text,
)

stored_row_fields :
    (settings : LogSettings) (row : Option LogRow) (c : LogChunk) (t now : Text)
    → (c.offset_start ≤ offset row)
    → ((stored_row settings row c t now).last_offset
        ≡ max (offset row) (c.offset_start + length c.text))
      × ((stored_row settings row c t now).preview_text ≡ take_last 4000 (preview row ++ t))
unfolding stored_row
stored_row_fields settings none c t now h = (omega arith, refl)
stored_row_fields settings (some row) c t now h = (refl, refl)

stored_row-Synced :
    (settings : LogSettings) (row : Option LogRow) (files f : LogFiles) (c : LogChunk)
    (t now : Text) (source : Text)
    → Synced source row files
    → IsSlice source c
    → new_text row c ≡ append t
    → contents f ≡ contents files ++ t
    → Synced source (some (stored_row settings row c t now)) f
stored_row-Synced settings row files f c t now source v slice new grown =
    let (start, t_eq) = new_text_lem row c t new in
    let (last, view) = stored_row_fields settings row c t now start in
    record {
      offset_inside = omega (arith, last, v.offset_inside, slice.0);
      stored_prefix =
          grown
          ∙ ap₂ (λ a b. a ++ b) v.stored_prefix
              (t_eq ∙ ap (λ x. drop (offset row - c.offset_start) x) slice.1)
          ∙ slice_lem source (offset row) c.offset_start (length c.text) start v.offset_inside
          ∙ ap (λ i. take i source) (sym last);
      preview_end =
          view
          ∙ ap (λ x. take_last 4000 (x ++ t)) v.preview_end
          ∙ take_last-append 4000 (contents files) t
          ∙ ap (take_last 4000) (sym grown);
    }

abbrev pub is_stored : LogReply → Bool
is_stored (stored n final) = true
is_stored _ = false

NewText-cases : (n : NewText) → ((r : LogReply) × (n ≡ refuse r)) ⊎ ((t : Text) × (n ≡ append t))
NewText-cases (append t) = inr (t, refl)
NewText-cases (refuse r) = inl (r, refl)

refusal_is_not_stored :
    (row : Option LogRow) (c : LogChunk) (r : LogReply)
    → new_text row c ≡ refuse r
    → is_stored r ≡ false
unfolding new_text
refusal_is_not_stored none c r h = ground arith
refusal_is_not_stored (some row) c r h = ground arith

-- The stream after a chunk, by the reply.
pub data After (source : Text) (s : LogState) (c : LogChunk) : LogReply → LogState → Type 0 where
  grown :
      {n : ℕ} {final : Bool} {s' : LogState}
      → Synced source s'.row s'.files
      → offset s'.row ≡ max (offset s.row) (c.offset_start + length c.text)
      → After source s c (stored n final) s'
  kept :
      {reply : LogReply} {s' : LogState}
      → is_stored reply ≡ false
      → s'.files ≡ s.files
      → offset s'.row ≡ offset s.row
      → Synced source s'.row s'.files
      → After source s c reply s'
  full : {s' : LogState} → last_slice ≤ length s'.files.archives → After source s c no_slice_left s'

Appended-cases :
    (a : Appended)
    → Ends a
    → ((f : LogFiles) × (a ≡ done f)) ⊎ ((f : LogFiles) × (a ≡ too_many_slices f))
Appended-cases (done f) h = inl (f, refl)
Appended-cases (too_many_slices f) h = inr (f, refl)
Appended-cases (out_of_fuel f) h = absurd h

mark-Synced :
    (row : Option LogRow) (files : LogFiles) (reason : String) (now source : Text)
    → Synced source row files
    → (offset (some (mark_log_truncated row reason now)) ≡ offset row)
      × Synced source (some (mark_log_truncated row reason now)) files
unfolding mark_log_truncated
mark-Synced none files reason now source v = (
  refl,
  record {
    offset_inside = v.offset_inside;
    stored_prefix = v.stored_prefix;
    preview_end = v.preview_end;
  },
)
mark-Synced (some row) files reason now source v = (
  refl,
  record {
    offset_inside = v.offset_inside;
    stored_prefix = v.stored_prefix;
    preview_end = v.preview_end;
  },
)

module _ (settings : LogSettings) (usage : ℕ) (now source : Text) (s : LogState) (c : LogChunk)
    (wide : 4 ≤ settings.task_log_stream_max_bytes) (v : Synced source s.row s.files)
    (slice : IsSlice source c) where
  store-After :
      (t : Text)
      → new_text s.row c ≡ append t
      → let (reply, s') = store_text settings now s c t in After source s c reply s'
  unfolding store_text
  store-After t new =
      elim (Appended-cases (append_log_chunk s.files t settings.task_log_stream_max_bytes)
        (append_log_chunk-Ends s.files t settings.task_log_stream_max_bytes wide)) [
          | inl (f, e) ↦
              rw (e, store_text)
                (grown
                  (stored_row-Synced settings s.row s.files f c t now source v slice new
                    (append_log_chunk-contents s.files t settings.task_log_stream_max_bytes f e))
                  (stored_row_fields settings s.row c t now (new_text_lem s.row c t new).0).0)
          | inr (f, e) ↦
              let grown : Grown (length s.files.archives)
                  (append_log_chunk s.files t settings.task_log_stream_max_bytes) =
                append_log_chunk-Grown s.files t settings.task_log_stream_max_bytes in
              rw (e, store_text) (full (subst (Grown (length s.files.archives)) e grown).1)
        ]

  append-After :
      (t : Text)
      → new_text s.row c ≡ append t
      → let (reply, s') = append_text_of settings usage now s c t in After source s c reply s'
  unfolding append_text_of
  append-After t new = elim (Bool-cases (truncated s.row)) [
    | inl gone ↦ rw gone (kept refl refl refl v)
    | inr live ↦ elim (Bool-cases (over_quota settings usage t)) [
      | inl over ↦
          let (same_offset, marked) =
            mark-Synced s.row s.files "storage_quota_exceeded" now source v in
          rw (live, over) (kept refl refl same_offset marked)
      | inr within ↦ rw (live, within) (store-After t new)
    ]
  ]

  -- A chunk of a node's log leaves the stored log a prefix of it, its offset the length of that prefix
  -- and its preview the end of it. A stored chunk moves the offset to the end of the chunk, unless it
  -- was there already; a refused one, also one over the quota, changes neither files nor offset. The
  -- files' limit is at least four bytes, and only a stream that has used up its archive numbers is
  -- excepted.
  pub task_log_chunk-After :
      let (reply, s') = task_log_chunk settings usage now s c in After source s c reply s'
  unfolding task_log_chunk
  task_log_chunk-After = elim (NewText-cases (new_text s.row c)) [
    | inl (reply, e) ↦
        rw (e, task_log_chunk) (kept (refusal_is_not_stored s.row c reply e) refl refl v)
    | inr (t, e) ↦ rw (e, task_log_chunk) (append-After t e)
  ]
