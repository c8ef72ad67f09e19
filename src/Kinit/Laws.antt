-- ===== src/Kinit/Laws.antt =====
-- kinit.c: what .bss holds when main starts, and which functions are called at exit, in which order.
use mathlib.Core.List.{reverse-cons}
use rosco_cli.Prelude.{
  ℕ, zero, suc, ◌+◌, ◌*◌, ◌<◌, ◌≤◌, ◌≡◌, refl, List, [], ◌∷◌, ◌++◌, false, ◌||◌, ◌==◌, ltb,
  if◌then◌else◌, length, arith, some, ◌∙◌, ap, Bool-cases, inl, inr, reverse, append_assoc,
  append-nil, sym,
}
use rosco_cli.Memory.{Mem, poke, SameOutside}
use rosco_cli.Kinit.{
  clear_word, clear_loop, kinit, Entries, cxa_atexit, selected, mark_done, cxa_finalize,
  max_cxa_atexits,
}

-- What __kinit leaves: zeros from `start` for `n` words, all else as it was.
pub record Cleared (m m' : Mem) (start n : ℕ) : Type 0 where
  pub zeros : (x : ℕ) → start ≤ x → x < start + 4 * n → m' x ≡ 0
  pub frame : SameOutside m m' start (4 * n)

clear_loop-Cleared :
    (f : ℕ) (m : Mem) (dst bss_end n : ℕ)
    → bss_end ≤ dst + 4 * n
    → dst + 4 * n < bss_end + 4
    → n < f
    → (m' : Mem) × (clear_loop f m dst bss_end ≡ some m') × Cleared m m' dst n
unfolding clear_loop
clear_loop-Cleared zero m dst bss_end n hi lo lt = absurd (omega arith)
clear_loop-Cleared (suc f) m dst bss_end zero hi lo lt =
    (m, ground arith, record { zeros = λ x a b. absurd (omega arith); frame = λ x out. refl })
clear_loop-Cleared (suc f) m dst bss_end (suc n) hi lo lt =
    let (m', run, c) =
      clear_loop-Cleared f (clear_word m dst) (dst + 4) bss_end n (omega arith) (omega arith)
        (omega arith) in
    (
      m',
      ground (arith, run),
      record {
        zeros = λ x a b. elim (Bool-cases (ltb x (dst + 4))) [
          | inl low ↦ c.frame x (ground arith) ∙ (unfold clear_word poke in ground arith)
          | inr high ↦ c.zeros x (ground arith) (omega arith)
        ];
        frame = λ x out. c.frame x (omega arith) ∙ (unfold clear_word poke in ground arith);
      },
    )

-- __kinit clears every word that starts below the end of .bss, which are `n` of them if the end lies in the last one, and no other byte.
pub kinit-Cleared :
    (f : ℕ) (m : Mem) (bss_start bss_end n : ℕ)
    → bss_end ≤ bss_start + 4 * n
    → bss_start + 4 * n < bss_end + 4
    → n < f
    → (m' : Mem) × (kinit f m bss_start bss_end ≡ some m') × Cleared m m' bss_start n
unfolding kinit
kinit-Cleared f m bss_start bss_end n hi lo lt = clear_loop-Cleared f m bss_start bss_end n hi lo lt

-- registering the functions in turn, as far as there is room
abbrev pub Registered : Type 0
Registered = List (ℕ × ℕ × ℕ)

abbrev pub register_all : Entries → Registered → Entries
register_all entries [] = entries
register_all entries ((f, p, d) ∷ more) = register_all (cxa_atexit entries f p d).0 more

-- the calls that are due for a handle, the first registered first
abbrev pub due : ℕ → Registered → List (ℕ × ℕ)
due handle [] = []
due handle ((f, p, d) ∷ more) =
    if handle == 0 || handle == d then (f, p) ∷ due handle more else due handle more

-- The table never grows over its 1024 entries, a full one refuses and stays as it is.
pub cxa_atexit_room :
    (entries : Entries) (f p d : ℕ)
    → length entries ≤ max_cxa_atexits
    → (length (cxa_atexit entries f p d).0 ≤ max_cxa_atexits)
      × ((cxa_atexit entries f p d).1 ≡ (if length entries == max_cxa_atexits then 1 else 0))
unfolding cxa_atexit
cxa_atexit_room entries f p d h = elim (Bool-cases (length entries == max_cxa_atexits)) [
  | inl full ↦ (rw full h, rw full)
  | inr room ↦ (rw room (ground arith), rw room)
]

finalize-snoc :
    (entries : Entries) (f p d handle : ℕ)
    → length entries < max_cxa_atexits
    → (cxa_finalize (cxa_atexit entries f p d).0 handle).1
      ≡ due handle ((f, p, d) ∷ []) ++ (cxa_finalize entries handle).1
unfolding cxa_atexit cxa_finalize selected
finalize-snoc entries f p d handle h = ground arith

registered-due :
    (entries : Entries) (xs : Registered) (handle : ℕ)
    → length entries + length xs ≤ max_cxa_atexits
    → (cxa_finalize (register_all entries xs) handle).1
      ≡ reverse (due handle xs) ++ (cxa_finalize entries handle).1
registered-due entries [] handle h = refl
registered-due entries ((f, p, d) ∷ xs) handle h =
    let one = finalize-snoc entries f p d handle (omega arith) in
    let size : length (cxa_atexit entries f p d).0 ≡ suc (length entries) =
      unfold cxa_atexit in ground arith in
    let rest = registered-due (cxa_atexit entries f p d).0 xs handle (omega arith) in
    rest
    ∙ ap (λ l. reverse (due handle xs) ++ l) one
    ∙ front (reverse (due handle xs)) handle f p d (due handle xs) (cxa_finalize entries handle).1
        refl
  where
    front :
        (r : List (ℕ × ℕ)) (handle f p d : ℕ) (xs l : List (ℕ × ℕ))
        → r ≡ reverse xs
        → r ++ (due handle ((f, p, d) ∷ []) ++ l)
          ≡ reverse (if handle == 0 || handle == d then (f, p) ∷ xs else xs) ++ l
    front r handle f p d xs l e = elim (Bool-cases (handle == 0 || handle == d)) [
      | inl picked ↦
          rw (picked, reverse-cons (f, p) xs, e) (sym (append_assoc (reverse xs) ((f, p) ∷ []) l))
      | inr skipped ↦ rw (skipped, e)
    ]

finalize-finished :
    (entries : Entries) (handle : ℕ) → (cxa_finalize (cxa_finalize entries handle).0 handle).1 ≡ []
unfolding cxa_finalize
finalize-finished [] handle = refl
finalize-finished (e ∷ entries) handle = elim (Bool-cases (selected handle e)) [
  | inl picked ↦
      let no : selected handle (mark_done e) ≡ false = unfold selected mark_done in ground arith in
      rw (picked, no) (finalize-finished entries handle)
  | inr skipped ↦ rw skipped (rw skipped (finalize-finished entries handle))
]

-- Up to 1024 functions that were registered with __cxa_atexit are called by __cxa_finalize in the reverse order, those of its handle or all for the null handle, and a second call with the handle calls none.
pub cxa_finalize-reverse :
    (xs : Registered) (handle : ℕ)
    → length xs ≤ max_cxa_atexits
    → ((cxa_finalize (register_all [] xs) handle).1 ≡ reverse (due handle xs))
      × ((cxa_finalize (cxa_finalize (register_all [] xs) handle).0 handle).1 ≡ [])
cxa_finalize-reverse xs handle h = (
  registered-due [] xs handle (omega arith)
      ∙ (unfold cxa_finalize in append-nil (reverse (due handle xs))),
  finalize-finished (register_all [] xs) handle,
)
