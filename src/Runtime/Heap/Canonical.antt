-- ===== src/Runtime/Heap/Canonical.antt =====
-- Making one string: crates/ruta-runtime/src/heap/string.rs.
use ruta.Prelude.{
  ℕ, ◌+◌, ◌^◌, ◌≤◌, ◌<◌, ◌≡◌, ◌≢◌, inl, inr, refl, sym, ap, subst, ◌∙◌, arith, true, Bool-cases,
  ◌==◌, leb, Option-cases, Option, none, some, List, [], ◌∷◌, ◌++◌, length, length-append,
  get_elem?, get_elem?-before, ok,
}
use ruta.Prelude.Bits.{doubled_pos}
use ruta.Runtime.Table.Key.{hash_bytes}
use ruta.Runtime.Heap.{Run, Heap, Object, str_object, last_handle}
use ruta.Runtime.Heap.Strings.{bytes_at, insert, intern, find_interned, new_string}
use ruta.Runtime.Heap.Probing.{Slots, Holds}
use ruta.Runtime.Heap.Interned.{In, Inserted, insert-Inserted}
use ruta.Runtime.Heap.Growing.{
  used-room, used-Inserted, length-Inserted, In-Inserted, Inserted-In, Readable,
}
use ruta.Runtime.Heap.Finding.{Finds, find_interned-Finds}
use ruta.Runtime.Heap.Room.{
  key_of, IsHeap, made, pushed, bytes_at-push, bytes_at-new, bytes_at-pushed, IsTable-agree, Roomy,
  TableIfAny, make_room,
}

-- What making a string leaves: a heap in order, where the handle reads as the bytes and every object
-- of the old heap is where it was.
pub record Makes (h : Heap) (bytes : List ℕ) (r : ℕ × Heap) : Type 0 where
  pub is_heap : IsHeap r.1
  pub reads : bytes_at r.1 r.0 ≡ ok bytes
  pub keeps :
      (i : ℕ) (object : Object)
      → get_elem? h.objects i ≡ some object
      → get_elem? r.1.objects i ≡ some object
  pub grows : length r.1.objects ≤ length h.objects + 1

abbrev answer : Run (List ℕ) → List ℕ
answer (ok bytes) = bytes
answer _ = []

abbrev answered : List ℕ → Run (List ℕ)
answered bytes = ok bytes

ok-same : (first second : List ℕ) → answered first ≡ answered second → first ≡ second
ok-same first second e = ap (λ r. answer r) e

pub last_handle-length :
    (objects : List Object) (object : Object)
    → length objects + 1 < 2 ^ 32
    → last_handle (objects ++ (object ∷ [])) ≡ length objects
last_handle-length objects object h = omega (arith, length-append objects (object ∷ []))

-- In a heap in order, equal short strings are the same object.
pub IsHeap-same :
    (h : Heap) (first second : ℕ) (bytes : List ℕ)
    → IsHeap h
    → bytes_at h first ≡ ok bytes
    → bytes_at h second ≡ ok bytes
    → length bytes ≤ 40
    → first ≡ second
IsHeap-same h first second bytes t e g short =
    let (i, there) = t.complete first bytes e short in
    let (j, here) = t.complete second bytes g short in
    elim t.table [
      | inl empty ↦
          let gone : none ≡ some (some first) =
            ap (λ (s : Slots). get_elem? s i) (sym empty) ∙ there in
          absurd cc
      | inr is ↦
          let one : key_of h first ≡ bytes = ok-same _ _ (sym (t.readable i first there) ∙ e) in
          let two : key_of h second ≡ bytes = ok-same _ _ (sym (t.readable j second here) ∙ g) in
          let slot : i ≡ j = is.distinct i j first second there here (one ∙ sym two) in
          let both : some (some first) ≡ some (some second) =
            sym there ∙ (ap (λ n. get_elem? h.interned n) slot ∙ here) in
          cc
    ]

module _ (h : Heap) (bytes : List ℕ) (t : IsHeap h) where
  key_of-pushed :
      (i handle : ℕ) → Holds h.interned i handle → key_of h handle ≡ key_of (pushed h bytes) handle
  key_of-pushed i handle g =
      let e = bytes_at-push h bytes (key_of h handle) handle (t.readable i handle g) in
      sym (rw e refl)

  Readable-pushed : Readable (key_of (pushed h bytes)) (pushed h bytes) h.interned
  Readable-pushed i handle g =
      bytes_at-push h bytes (key_of h handle) handle (t.readable i handle g)
      ∙ ap (λ b. ok b) (key_of-pushed i handle g)

  TableIfAny-pushed : TableIfAny (key_of (pushed h bytes)) h.interned
  TableIfAny-pushed = elim t.table [
    | inl e ↦ inl e
    | inr is ↦ inr (IsTable-agree (key_of h) (key_of (pushed h bytes)) h.interned key_of-pushed is)
  ]

  -- A long string is not in the table.
  pushed-IsHeap : 40 < length bytes → IsHeap (pushed h bytes)
  pushed-IsHeap long = record {
    table = TableIfAny-pushed;
    counted = t.counted;
    roomy = t.roomy;
    readable = Readable-pushed;
    complete = λ handle held e short. elim (bytes_at-pushed h bytes held handle e) [
      | inr old ↦ t.complete handle held old short
      | inl new ↦
          let same : held ≡ bytes =
            ok-same _ _
              (sym e ∙ (ap (λ n. bytes_at (pushed h bytes) n) new ∙ bytes_at-new h bytes)) in
          let f : ⊥ = omega (arith, ap (λ (l : List ℕ). length l) same, short, long) in absurd f
    ];
  }

  own_bytes : key_of (pushed h bytes) (length h.objects) ≡ bytes
  own_bytes = ap (λ r. answer r) (bytes_at-new h bytes)

  -- The table with the new handle in it.
  interned-IsHeap :
      (slots after : Slots)
      → length bytes ≤ 40
      → Roomy (key_of (pushed h bytes)) h.interned_len h.interned slots
      → Inserted (key_of (pushed h bytes)) slots after (length h.objects)
      → IsHeap (record (pushed h bytes) { interned = after; interned_len = h.interned_len + 1 })
  interned-IsHeap slots after short room q =
      let p = pushed h bytes in
      let new = length h.objects in
      let key = key_of p in
      record {
        table = inr q.is_table;
        counted = omega (arith, used-Inserted key slots after new q, room.counted, t.counted);
        roomy = omega (arith, length-Inserted key slots after new q, room.room);
        readable = λ i handle g. elim (Inserted-In key slots after new handle q (i, g)) [
          | inl old ↦ let (j, there) = room.adds handle old in Readable-pushed j handle there
          | inr same ↦
              subst (λ n. bytes_at p n ≡ ok (key n)) (sym same)
                (bytes_at-new h bytes ∙ ap (λ b. ok b) (sym own_bytes))
        ];
        complete = λ handle held g s. elim (bytes_at-pushed h bytes held handle g) [
          | inl same ↦ In-Inserted key slots after new handle q (inr same)
          | inr old ↦
              In-Inserted key slots after new handle q
                (inl (room.keeps handle (t.complete handle held old s)))
        ];
      }

  -- A short string that no handle of the table has is put into the table.
  intern-IsHeap :
      length bytes ≤ 40
      → ((handle : ℕ) → In (key_of h) h.interned handle → key_of h handle ≡ bytes → ⊥)
      → (after : Heap) × (intern (pushed h bytes) (length h.objects) (hash_bytes bytes) ≡ ok after)
        × IsHeap after
        × (after.objects ≡ (pushed h bytes).objects)
  unfolding intern
  intern-IsHeap short absent =
      let p = pushed h bytes in
      let new = length h.objects in
      let key = key_of p in
      let own : key new ≡ bytes = own_bytes in
      let (slots, grown, room) = make_room p TableIfAny-pushed t.counted t.roomy Readable-pushed in
      let (e, m) = used-room slots (omega (arith, room.room, room.counted, t.counted)) in
      let fresh : (i other : ℕ) → Holds slots i other → key other ≢ key new = λ i other g same.
        let (j, old) = room.adds other (i, g) in
        absent other (j, old) (key_of-pushed j other old ∙ (same ∙ own)) in
      let (after, put, q) = insert-Inserted key slots new e room.is_table m fresh in
      let put_own : insert slots new (hash_bytes bytes) ≡ ok after =
        ap (λ b. insert slots new (hash_bytes b)) (sym own) ∙ put in
      (
        record p { interned = after; interned_len = h.interned_len + 1 },
        rw (grown, put_own) refl,
        interned-IsHeap slots after short room q,
        refl,
      )

  -- A string that is not found is pushed.
  keeps-pushed :
      (i : ℕ) (object : Object)
      → get_elem? h.objects i ≡ some object
      → get_elem? (pushed h bytes).objects i ≡ some object
  keeps-pushed i object e = get_elem?-before h.objects (str_object (made bytes) ∷ []) i object e

  grows-pushed : length (pushed h bytes).objects ≤ length h.objects + 1
  grows-pushed = omega (arith, length-append h.objects (str_object (made bytes) ∷ []))

  -- Nothing is found in an empty table either.
  find-Finds :
      (found : Option ℕ) × (find_interned h bytes (hash_bytes bytes) ≡ ok found)
      × Finds (key_of h) h.interned bytes found
  unfolding find_interned
  find-Finds = elim t.table [
    | inl e ↦
        let size : length h.interned ≡ 0 = ap (λ (s : Slots). length s) e in
        let zero_slots : (length h.interned == 0) ≡ true = ground (arith, size) in
        (
          none,
          rw (zero_slots, find_interned) refl,
          λ handle (i, g) same.
              let gone : none ≡ some (some handle) =
                ap (λ (s : Slots). get_elem? s i) (sym e) ∙ g in
              absurd cc,
        )
    | inr is ↦
        let (empty, m) =
          used-room h.interned
            (omega (arith, t.counted, t.roomy, is.sized, doubled_pos is.power)) in
        find_interned-Finds (key_of h) h bytes empty is t.readable m
  ]

  existing-Makes :
      (handle : ℕ)
      → In (key_of h) h.interned handle
      → key_of h handle ≡ bytes
      → Makes h bytes (handle, h)
  existing-Makes handle (i, there) same = record {
    is_heap = t;
    reads = t.readable i handle there ∙ ap (λ b. ok b) same;
    keeps = λ i object e. e;
    grows = omega arith;
  }

  pushed-Makes : 40 < length bytes → Makes h bytes (length h.objects, pushed h bytes)
  pushed-Makes long = record {
    is_heap = pushed-IsHeap long;
    reads = bytes_at-new h bytes;
    keeps = keeps-pushed;
    grows = grows-pushed;
  }

-- In a heap in order, of fewer than 2^32 - 1 objects, `new_string` answers: the handle reads as the
-- bytes, every object is where it was, and the heap is in order.
pub new_string-Makes :
    (h : Heap) (bytes : List ℕ)
    → IsHeap h
    → length h.objects + 1 < 2 ^ 32
    → (r : ℕ × Heap) × (new_string h bytes ≡ ok r) × Makes h bytes r
unfolding new_string
new_string-Makes h bytes t fits =
    let handle : last_handle (h.objects ++ (str_object (made bytes) ∷ [])) ≡ length h.objects =
      last_handle-length h.objects (str_object (made bytes)) fits in
    elim (Bool-cases (leb (length bytes) 40)) [
      | inr long ↦ (
        (length h.objects, pushed h bytes),
        rw (long, new_string, handle, long) refl,
        pushed-Makes h bytes t (ground (arith, long)),
      )
      | inl short ↦
          let (found, run, finds) = find-Finds h bytes t in
          elim (Option-cases found) [
            | inr (existing, e) ↦
                let (there, same) = subst (λ o. Finds (key_of h) h.interned bytes o) e finds in
                (
                  (existing, h),
                  rw (short, new_string, run, e) refl,
                  existing-Makes h bytes t existing there same,
                )
            | inl e ↦
                let absent = subst (λ o. Finds (key_of h) h.interned bytes o) e finds in
                let (after, ran, is, objects) =
                  intern-IsHeap h bytes t (ground (arith, short)) absent in
                (
                  (length h.objects, after),
                  rw (short, new_string, run, e, handle, short, ran) refl,
                  record {
                    is_heap = is;
                    reads =
                        ap
                          (λ (s : List Object).
                            bytes_at (record h { objects = s }) (length h.objects))
                          objects
                        ∙ bytes_at-new h bytes;
                    keeps = λ i object g.
                        ap (λ (s : List Object). get_elem? s i) objects
                        ∙ keeps-pushed h bytes t i object g;
                    grows =
                        omega (
                          arith,
                          ap (λ (s : List Object). length s) objects,
                          grows-pushed h bytes t,
                        );
                  },
                )
          ]
    ]
