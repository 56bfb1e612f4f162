-- ===== src/Bundle/RoundTrip/Written.antt =====
-- What one call of the writer's `append` leaves.
use webgit.Base.{
  ℕ, suc, ◌+◌, ◌≤◌, ◌≡◌, refl, ap, arith, Bytes, List, ◌++◌, append_assoc, ltb, Bool-cases, inl,
  inr, Option, ok, err, length, bind-eq_ok, not_ltb→le, subst, length-append,
}
use webgit.Object.{RawObject}
use webgit.Bundle.Window.{Candidate, Delta, unbuilt, best_delta, remember}
use webgit.Bundle.Writer.{
  Crates, BundleResult, BundleWriter, max_bundle_bytes, pack_bytes, finish_object, stored,
  with_window, after_append, append, over_limit,
}

-- The bytes that are added: a header, and a payload deflated.
pub record IsFinished (w : BundleWriter) (entry : Bytes) (w' : BundleWriter) : Type 0 where
  pub hashed : w'.hashed ≡ w.hashed ++ entry
  pub out : w'.out ≡ w.out ++ entry
  pub written : w'.written ≡ w.written + length entry
  pub within : w'.written ≤ max_bundle_bytes
  pub objects : w'.objects ≡ w.objects

module _ (crates : Crates) where
  finish_object-IsFinished :
      (header payload : Bytes) (w w' : BundleWriter)
      → finish_object crates header payload w ≡ ok w'
      → IsFinished w (header ++ crates.compress payload) w'
        × (w'.appended ≡ w.appended)
        × (w'.window ≡ w.window)
  unfolding finish_object pack_bytes
  finish_object-IsFinished header payload w w' e =
      let deflated = crates.compress payload in
      let n = w.written + length header + length deflated in
      let done : BundleWriter = pack_bytes deflated (pack_bytes header w) in
      elim (Bool-cases (ltb max_bundle_bytes n)) [
        | inl over ↦
            (let e' : ◌≡◌ {A = BundleResult BundleWriter} (err over_limit) (ok w') = rw over at e in
              cc)
        | inr fits ↦
            (let e' : ◌≡◌ {A = BundleResult BundleWriter} (ok done) (ok w') = rw fits at e in
              let same : done ≡ w' = cc in
              let small = not_ltb→le max_bundle_bytes n fits in
              subst
                (λ (v : BundleWriter).
                  IsFinished w (header ++ deflated) v
                  × (v.appended ≡ w.appended)
                  × (v.window ≡ w.window))
                same
                (
                  record {
                    hashed = append_assoc w.hashed header deflated;
                    out = append_assoc w.out header deflated;
                    written = omega (arith, length-append header deflated);
                    within = small;
                    objects = refl;
                  },
                  refl,
                  refl,
                ))
      ]

  abbrev pub new_candidate : RawObject → ℕ → ℕ → Candidate
  new_candidate object offset depth = record {
    offset = offset;
    depth = depth;
    object_type = object.object_type;
    body = object.body;
    index = unbuilt;
  }

  -- The window that `best_delta` leaves, and what it answers.
  abbrev pub tried : RawObject → BundleWriter → List Candidate × Option Delta
  tried object w = best_delta crates.engine object.object_type object.body w.window.window

  abbrev pub parts : RawObject → BundleWriter → Bytes × Bytes × ℕ
  parts object w = stored crates object.object_type object.body w.written (tried object w).1

  abbrev pub entry : RawObject → BundleWriter → Bytes
  entry object w = (parts object w).0 ++ crates.compress (parts object w).1

  pub append_lem :
      (object : RawObject) (w w' : BundleWriter)
      → append crates object.object_type object.body w ≡ ok w'
      → IsFinished w (entry object w) w'
        × (w'.appended ≡ suc w.appended)
        × (w'.window
            ≡ remember
                (new_candidate object w.written (parts object w).2)
                (record { window = (tried object w).0; window_bytes = w.window.window_bytes }))
  unfolding append after_append
  append_lem object w w' e =
      let old : BundleWriter = with_window crates (tried object w).0 w in
      let (v, made, e') =
        bind-eq_ok (finish_object crates (parts object w).0 (parts object w).1 old) _ e in
      let (f, count, window) =
        finish_object-IsFinished (parts object w).0 (parts object w).1 old v made in
      let same : after_append crates object.object_type object.body w.written (parts object w).2 v
          ≡ w' =
        cc in
      subst
        (λ (u : BundleWriter).
          IsFinished w (entry object w) u
          × (u.appended ≡ suc w.appended)
          × (u.window
              ≡ remember (new_candidate object w.written (parts object w).2)
                  (record { window = (tried object w).0; window_bytes = w.window.window_bytes })))
        same
        (
          record {
            hashed = f.hashed;
            out = f.out;
            written = f.written;
            within = f.within;
            objects = f.objects;
          },
          ap suc count,
          ap (remember (new_candidate object w.written (parts object w).2)) window,
        )
