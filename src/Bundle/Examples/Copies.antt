-- ===== src/Bundle/Examples/Copies.antt =====
-- Runs of the writer and the reader of a bundle on two equal objects, and the theorems on the
-- windows at concrete inputs, with crates that can do no more than that.
use webgit.Base.{
  ℕ, zero, suc, ◌≡◌, ◌≤◌, refl, ap, arith, Bytes, List, [], ◌∷◌, ◌++◌, length, take, ok, err,
}
use webgit.Base.{
  Bool, true, false, ◌&&◌, leb, eq_bytes, if◌then◌else◌, Option, none, some, inl, inr, ◌>>=◌,
}
use webgit.Base.{drop, sym, ◌<◌, ◌^◌, lt_wf, leb→le, Bool-cases}
use webgit.Object.{RawObject, blob, compute_id, digits, type_name}
use webgit.Hash.{ObjectId}
use webgit.Pack.Header.{
  parse_object_header, obj_type_size_loop, read_obj_type_size, read_base, type_of,
  read_delta_offset, delta_offset_loop,
}
use webgit.Pack.Index.{be_loop}
use webgit.Pack.Delta
use webgit.Pack.Header.{read_delta_expected_size, expected_size_loop}
use webgit.Pack.Delta.{
  apply_delta, delta_loop, run_instruction, run_copy, copied_run, take_bytes, read_arg, read_args,
  from_le_bytes, with_capacity, reserved, extend_from_slice,
}
use webgit.Bundle.Header.{
  type_bits, header_loop, write_pack_header, distance_loop, write_base_distance,
}
use webgit.Bundle.Window.{
  Engine, Candidate, Window, unbuilt, same_type, build_index, first_budget, budget, is_worse, offer,
  offer_built, try_candidate, best_delta, drop_oldest, remember,
}
use webgit.Bundle.Window.Budget.{KeepsLimit, IsSmall, best_delta-IsSmall}
use webgit.Bundle.Window.Memory.{IsWindow, total, remember-IsWindow}
use webgit.Bundle.Writer.{
  Crates, BundleResult, pack_bytes, start_pack, finish_object, stored, after_append, append,
  append_all, finish, wrong_count,
}
use webgit.Bundle.Reader.{
  ObjectStore, find_id, remove_id, find_at, forget_oldest, keep, or_bundle_error, inflate,
  find_base, rebuild, object_of, keep_object, read_object, read_loop, verify_pack, read_pack,
}
use webgit.Base.{panic, stuck}
use webgit.Bundle.Reader.Puts.{put_all, Puts, read_pack-Puts}
use native.Mathlib.Decide.{dec_lt}

unfoldable pub program : Unit {0}
unfolding header_loop write_pack_header distance_loop write_base_distance type_bits lt_wf dec_lt
    same_type build_index first_budget budget is_worse offer offer_built try_candidate best_delta
    drop_oldest remember pack_bytes start_pack finish_object stored after_append append append_all
    finish find_id remove_id find_at forget_oldest keep or_bundle_error inflate find_base rebuild
    object_of keep_object read_object read_loop verify_pack read_pack compute_id digits type_name
    parse_object_header read_base read_obj_type_size obj_type_size_loop type_of read_delta_offset
    delta_offset_loop total apply_delta Delta.rebuild delta_loop run_instruction run_copy copied_run
    take_bytes read_arg read_args from_le_bytes with_capacity reserved extend_from_slice
    read_delta_expected_size expected_size_loop be_loop
program = tt

unfoldable pub zeros : ℕ → Bytes
zeros zero = []
zeros (suc n) = 0 ∷ zeros n

-- It knows one base, and the delta that copies all of it.
abbrev pub copies : Engine
copies = record {
  has_index = λ body. true;
  delta = λ base body limit.
      if (eq_bytes base (zeros 60) && eq_bytes body (zeros 60)) && leb 4 limit
      then some (60 ∷ 60 ∷ 0x90 ∷ 60 ∷ [])
      else none;
}

abbrev pub toy : Crates
toy = record {
  sha1 = λ x. take 20 (x ++ zeros 20);
  compress = λ x. 0x78 ∷ x;
  decompress = λ input size. (leb (suc size) (length input), take size (drop 1 input), suc size);
  engine = copies;
}

abbrev made_length : Option Bytes → ℕ
made_length made = elim made [ none ↦ 0 | some d ↦ length d ]

if_some :
    (b : Bool) (n limit : ℕ) (d : Bytes)
    → (if b && leb 4 limit then some (n ∷ n ∷ 0x90 ∷ n ∷ []) else none) ≡ some d
    → length d ≤ limit
if_some false n limit d e = cc
if_some true n limit d e = elim (Bool-cases (leb 4 limit)) [
  | inl l ↦
      (let e' : some (n ∷ n ∷ 0x90 ∷ n ∷ []) ≡ some d = rw l at e in
        let same : 4 ≡ length d = ap made_length e' in rw (sym same) (leb→le 4 limit l))
  | inr l ↦ (let e' = rw l at e in cc)
]

pub copies-KeepsLimit : KeepsLimit copies
copies-KeepsLimit base body limit d e =
    if_some (eq_bytes base (zeros 60) && eq_bytes body (zeros 60)) 60 limit d e

abbrev pub zero_blob : RawObject
zero_blob = record { object_type = blob; body = zeros 60 }

abbrev first_candidate : Candidate
first_candidate = record {
  offset = 12;
  depth = 0;
  object_type = blob;
  body = zeros 60;
  index = unbuilt;
}

best_delta-IsSmall_example :
    IsSmall (length (zeros 60)) (best_delta copies blob (zeros 60) (first_candidate ∷ [])).1
best_delta-IsSmall_example =
    best_delta-IsSmall copies copies-KeepsLimit blob (zeros 60) (first_candidate ∷ [])

a_delta :
    (best_delta copies blob (zeros 60) (first_candidate ∷ [])).1
    ≡ some (record { delta_data = 60 ∷ 60 ∷ 0x90 ∷ 60 ∷ []; base_offset = 12; depth = 1 })
unfolding program zeros
a_delta = refl

abbrev no_window : Window
no_window = record { window = []; window_bytes = 0 }

no_window-IsWindow : IsWindow no_window
unfolding program zeros
no_window-IsWindow = record {
  few = omega arith;
  counted = refl;
  slices = tt;
  fits = inr (omega arith);
}

zeros_short : length (zeros 60) < 2 ^ 31
unfolding program zeros
zeros_short = omega arith

remember-IsWindow_example : IsWindow (remember first_candidate no_window)
remember-IsWindow_example =
    remember-IsWindow first_candidate no_window no_window-IsWindow zeros_short

abbrev pub two : List RawObject
two = zero_blob ∷ zero_blob ∷ []

abbrev as_pack : List RawObject → BundleResult Bytes
as_pack objects = do w ← append_all toy objects (start_pack [] (length objects)); finish toy w

abbrev pub Stored : Type 0
Stored = List (ObjectId × RawObject)

abbrev pub by_id : ObjectStore Stored
by_id = record { put = λ s id object. ok ((id, object) ∷ s); get = λ s id. ok (find_id id s) }

abbrev there_and_back : List RawObject → BundleResult (Stored × ℕ)
there_and_back objects = do pack ← as_pack objects; read_pack by_id toy pack []

two_back :
    there_and_back two
    ≡ ok (
      (compute_id toy.sha1 zero_blob, zero_blob) ∷ (compute_id toy.sha1 zero_blob, zero_blob) ∷ [],
      2,
    )
unfolding program zeros
two_back = refl

too_few : (do w ← append_all toy [] (start_pack [] 1); finish toy w) ≡ err wrong_count
unfolding program zeros
too_few = refl

abbrev pack_of_two : Bytes
pack_of_two = elim (as_pack two) [ ok bytes ↦ bytes | err e ↦ [] | panic ↦ [] | stuck ↦ [] ]

abbrev stored_two : Stored
stored_two =
    (compute_id toy.sha1 zero_blob, zero_blob) ∷ (compute_id toy.sha1 zero_blob, zero_blob) ∷ []

two_read : read_pack by_id toy pack_of_two [] ≡ ok (stored_two, 2)
unfolding program zeros
two_read = refl

read_pack-Puts_example : Puts by_id toy 2 [] stored_two
read_pack-Puts_example = read_pack-Puts by_id toy pack_of_two [] stored_two 2 two_read

two_put : put_all by_id toy two [] ≡ ok stored_two
unfolding program zeros put_all
two_put = refl
