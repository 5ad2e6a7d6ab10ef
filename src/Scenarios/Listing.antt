-- ===== src/Scenarios/Listing.antt =====
-- Three tasks on pages of two, with a small code in the place of base64 and JSON: four letters
-- for each number, none of them "=".
use gpufleet.Prelude.{
  ℕ, suc, ◌*◌, ◌-◌, Text, codes, false, ◌≡◌, refl, ap, sym, append-nil, Option, none, some, List,
  [], ◌∷◌, length, any, select, ltb, ◌==◌, if◌then◌else◌, arith,
}
use gpufleet.Scenarios.Rows.{task}
use gpufleet.Auth.Keys.{Bytes}
use gpufleet.Tasks.Status.{pending, running, succeeded}
use gpufleet.Tasks.Table.{TaskRow}
use gpufleet.Listing.{Key, CursorLibrary, TaskFilter, ordered, selected, padding, follow}
use gpufleet.Listing.Cursor.{Base64Text, RoundTrips}
use gpufleet.Listing.Pages.{follow-all}

abbrev shift : ℕ → ℕ
shift b = if ltb b 61 then b else suc b

abbrev unshift : ℕ → ℕ
unshift c = if ltb c 61 then c else c - 1

abbrev letters : Bytes → Text
letters [] = []
letters (b ∷ x) = shift b ∷ 65 ∷ 65 ∷ 65 ∷ letters x

abbrev numbers : Text → Bytes
numbers (c ∷ _ ∷ _ ∷ _ ∷ t) = unshift c ∷ numbers t
numbers _ = []

abbrev read_key : Bytes → Option Key
read_key [] = none
read_key (i ∷ t) = some (t, i)

abbrev library : CursorLibrary
library = record {
  dumps = λ k. k.1 ∷ k.0;
  loads = read_key;
  urlsafe_b64encode = letters;
  urlsafe_b64decode = λ t. some (numbers t);
}

numbers-letters : (x : Bytes) → numbers (letters x) ≡ x
numbers-letters [] = refl
numbers-letters (b ∷ x) = ground (arith, numbers-letters x)

letters_plain : (x : Bytes) → any (λ c. c == 61) (letters x) ≡ false
letters_plain [] = refl
letters_plain (b ∷ x) = ground (arith, letters_plain x)

length-letters : (x : Bytes) → length (letters x) ≡ 4 * length x
length-letters [] = refl
length-letters (b ∷ x) = omega (arith, length-letters x)

text-Base64Text : (x : Bytes) → Base64Text x (letters x)
unfolding padding
text-Base64Text x = record {
  body = letters x;
  some_text = λ h. omega (arith, length-letters x);
  pad = 0;
  whole = sym (append-nil (letters x));
  plain = letters_plain x;
  few = omega arith;
  filled = omega (arith, length-letters x);
}

library-RoundTrips : RoundTrips library
library-RoundTrips = record {
  loads-dumps = λ k. refl;
  decode-encode = λ x. ap some (numbers-letters x);
  base64_text = text-Base64Text;
  some_json = λ k. omega arith;
}

abbrev filter : TaskFilter
filter = record {
  node_id = some "node-a";
  status = none;
  task_type = none;
  since = some (codes "12:00");
  until_time = none;
}

abbrev rows : List TaskRow
rows =
    task 1 "t1" succeeded (codes "12:01")
    ∷ task 2 "t2" running (codes "12:03")
    ∷ task 3 "t3" pending (codes "12:03")
    ∷ []

follow-all_example :
    follow library filter 2 rows 4 none ≡ some (select (selected filter) (ordered rows))
follow-all_example =
    follow-all library filter 2 4 rows library-RoundTrips (omega arith) (refl, (refl, (refl, tt)))
      (omega arith)
