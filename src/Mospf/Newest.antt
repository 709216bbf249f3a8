-- ===== src/Mospf/Newest.antt =====
-- What the link state database of mospf_daemon.c, Computer Networks/pr6-网络路由实验二, holds after any sequence
-- of messages.
use ucas_coursework.Prelude.{
  ℕ, ◌<◌, ◌≡◌, ◌≢◌, refl, sym, ap, ◌∙◌, Bool, Option, none, some, on_some, List, [], ◌∷◌, ◌++◌, map,
  arith, ◌==◌, ltb, ==_iff, ==_refl, ==_ne, if◌then◌else◌, Bool-cases, inl, inr, append_assoc,
  append-nil, Distinct, Distinct-snoc, ◌∉◌, has-snoc,
}
use mathlib.Core.Path.{subst}
use ucas_coursework.Prelude.Greatest.{Greatest, take-Greatest, skip-Greatest, Over, Under}
use ucas_coursework.Mospf.{DbEntry}
use ucas_coursework.Mospf.Database.{find_entry, set_entry, learn, learn_by, init_mospf_db}

-- The messages are learnt one after the other; each is read to its end.
abbrev pub learn_all : ℕ → List DbEntry → List DbEntry → Option (List DbEntry)
learn_all own [] db = some db
learn_all own (h ∷ heard) db =
    on_some (learn_all own heard) (learn own h.rid h.seq (some h.array) db)

abbrev pub is_from : ℕ → DbEntry → Bool
is_from rid e = e.rid == rid

abbrev pub seq_of : DbEntry → ℕ
seq_of e = e.seq

abbrev pub rid_of : DbEntry → ℕ
rid_of e = e.rid

-- Of the messages of the router `rid`, the entry is the first of those with the greatest number.
abbrev pub Newest : ℕ → List DbEntry → Option DbEntry → Type 0
Newest rid heard entry = Greatest (is_from rid) seq_of heard entry

-- The database has an entry for each router once and none for its own, and each is the newest.
pub record UpToDate (own : ℕ) (heard : List DbEntry) (db : List DbEntry) : Type 0 where
  pub once : Distinct (map rid_of db)
  pub not_own : own ∉ map rid_of db
  pub newest : (rid : ℕ) → rid ≢ own → Newest rid heard (find_entry rid db)

pub find-snoc :
    (rid : ℕ) (db : List DbEntry) (e : DbEntry)
    → find_entry rid db ≡ none
    → find_entry rid (db ++ (e ∷ [])) ≡ (if e.rid == rid then some e else none)
unfolding find_entry
find-snoc rid [] e h = refl
find-snoc rid (x ∷ db) e h = elim (Bool-cases (x.rid == rid)) [
  | inl here ↦ absurd (let bad : some x ≡ none = rw here at h in cc)
  | inr there ↦ rw there (find-snoc rid db e (rw there at h))
]

pub find-snoc_other :
    (rid : ℕ) (db : List DbEntry) (e : DbEntry)
    → e.rid ≢ rid
    → find_entry rid (db ++ (e ∷ [])) ≡ find_entry rid db
unfolding find_entry
find-snoc_other rid [] e n = rw (==_ne e.rid rid n) refl
find-snoc_other rid (x ∷ db) e n =
    ap (λ o. if x.rid == rid then some x else o) (find-snoc_other rid db e n)

pub find-set :
    (db : List DbEntry) (e f : DbEntry)
    → find_entry e.rid db ≡ some f
    → find_entry e.rid (set_entry e db) ≡ some e
unfolding find_entry set_entry
find-set [] e f h = absurd cc
find-set (x ∷ db) e f h = elim (Bool-cases (x.rid == e.rid)) [
  | inl here ↦ rw (here, ==_refl e.rid) refl
  | inr there ↦ rw (there, there) (find-set db e f (rw there at h))
]

pub find-set_other :
    (rid : ℕ) (db : List DbEntry) (e : DbEntry)
    → e.rid ≢ rid
    → find_entry rid (set_entry e db) ≡ find_entry rid db
unfolding find_entry set_entry
find-set_other rid [] e n = refl
find-set_other rid (x ∷ db) e n = elim (Bool-cases (x.rid == e.rid)) [
  | inl here ↦
      let same : x.rid ≡ e.rid = (==_iff x.rid e.rid).0 here in
      rw (here, ==_ne e.rid rid n, ==_ne x.rid rid (λ q. n (sym same ∙ q))) refl
  | inr there ↦ rw there (ap (λ o. if x.rid == rid then some x else o) (find-set_other rid db e n))
]

map-set : (db : List DbEntry) (e : DbEntry) → map rid_of (set_entry e db) ≡ map rid_of db
unfolding set_entry
map-set [] e = refl
map-set (x ∷ db) e = elim (Bool-cases (x.rid == e.rid)) [
  | inl here ↦ rw here (ap (λ a. a ∷ map rid_of db) (sym ((==_iff x.rid e.rid).0 here)))
  | inr there ↦ rw there (ap (λ l. x.rid ∷ l) (map-set db e))
]

map-snoc :
    (db : List DbEntry) (e : DbEntry) → map rid_of (db ++ (e ∷ [])) ≡ map rid_of db ++ (e.rid ∷ [])
map-snoc [] e = refl
map-snoc (x ∷ db) e = ap (λ l. x.rid ∷ l) (map-snoc db e)

find-none-not_in : (rid : ℕ) (db : List DbEntry) → find_entry rid db ≡ none → rid ∉ map rid_of db
unfolding find_entry
find-none-not_in rid [] h = refl
find-none-not_in rid (x ∷ db) h = elim (Bool-cases (x.rid == rid)) [
  | inl here ↦ absurd (let bad : some x ≡ none = rw here at h in cc)
  | inr there ↦ let ih = find-none-not_in rid db (rw there at h) in ground arith
]

module _ (own : ℕ) (heard : List DbEntry) (db : List DbEntry) (h : DbEntry) where
  -- What is heard of another router changes nothing.
  Newest-other :
      (rid : ℕ) (entry : Option DbEntry)
      → h.rid ≢ rid
      → Newest rid heard entry
      → Newest rid (heard ++ (h ∷ [])) entry
  Newest-other rid entry n up =
      skip-Greatest (is_from rid) seq_of h entry heard (λ m. absurd (n ((==_iff h.rid rid).0 m))) up

  same-UpToDate :
      ((rid : ℕ) → rid ≢ own → h.rid ≡ rid → Under (is_from rid) seq_of (find_entry rid db) h)
      → UpToDate own heard db
      → UpToDate own (heard ++ (h ∷ [])) db
  same-UpToDate under up = record {
    once = up.once;
    not_own = up.not_own;
    newest = λ rid n.
        skip-Greatest (is_from rid) seq_of h (find_entry rid db) heard
          (λ m. under rid n ((==_iff h.rid rid).0 m)) (up.newest rid n);
  }

  taken-Newest :
      (db' : List DbEntry)
      → h.rid ≢ own
      → Over (is_from h.rid) seq_of (find_entry h.rid db) h
      → find_entry h.rid db' ≡ some h
      → ((rid : ℕ) → h.rid ≢ rid → find_entry rid db' ≡ find_entry rid db)
      → UpToDate own heard db
      → (rid : ℕ) → rid ≢ own
      → Newest rid (heard ++ (h ∷ [])) (find_entry rid db')
  taken-Newest db' foreign over found other up rid n = elim (Bool-cases (h.rid == rid)) [
    | inl same ↦
        let e : h.rid ≡ rid = (==_iff h.rid rid).0 same in
        subst (λ r. Newest r (heard ++ (h ∷ [])) (find_entry r db')) e
          (rw found (
            take-Greatest (is_from h.rid) seq_of h (find_entry h.rid db) heard (==_refl h.rid) over
              (up.newest h.rid foreign)))
    | inr differs ↦
        let d : h.rid ≢ rid = λ e. absurd (cc ((==_iff h.rid rid).1 e, differs)) in
        rw (other rid d) (Newest-other rid (find_entry rid db) d (up.newest rid n))
  ]

  append-UpToDate :
      h.rid ≢ own
      → find_entry h.rid db ≡ none
      → UpToDate own heard db
      → UpToDate own (heard ++ (h ∷ [])) (db ++ (h ∷ []))
  append-UpToDate foreign missing up = record {
    once =
        rw (map-snoc db h)
          (Distinct-snoc h.rid (map rid_of db) up.once (find-none-not_in h.rid db missing));
    not_own = rw (map-snoc db h) (ground (arith, has-snoc own (map rid_of db) h.rid, up.not_own));
    newest =
        taken-Newest (db ++ (h ∷ [])) foreign (rw missing tt)
          (find-snoc h.rid db h missing ∙ rw (==_refl h.rid) refl)
          (λ rid d. find-snoc_other rid db h d) up;
  }

  replace-UpToDate :
      (f : DbEntry)
      → h.rid ≢ own
      → find_entry h.rid db ≡ some f
      → f.seq < h.seq
      → UpToDate own heard db
      → UpToDate own (heard ++ (h ∷ [])) (set_entry h db)
  replace-UpToDate f foreign found newer up = record {
    once = rw (map-set db h) up.once;
    not_own = rw (map-set db h) up.not_own;
    newest =
        taken-Newest (set_entry h db) foreign (rw found newer) (find-set db h f found)
          (λ rid d. find-set_other rid db h d) up;
  }

  learn_by-UpToDate :
      (found : Option DbEntry)
      → h.rid ≢ own
      → find_entry h.rid db ≡ found
      → UpToDate own heard db
      → (db' : List DbEntry) × (learn_by h.rid h.seq (some h.array) db found ≡ some db')
        × UpToDate own (heard ++ (h ∷ [])) db'
  learn_by-UpToDate none foreign e up = (db ++ (h ∷ []), refl, append-UpToDate foreign e up)
  learn_by-UpToDate (some f) foreign e up = elim (Bool-cases (ltb f.seq h.seq)) [
    | inl newer ↦ rw newer (set_entry h db, refl, replace-UpToDate f foreign e (ground arith) up)
    | inr older ↦ rw older (
      db,
      refl,
      same-UpToDate
          (λ rid n s.
            subst (λ r. Under (is_from r) seq_of (find_entry r db) h) s
              (rw e (ground (arith, older))))
          up,
    )
  ]

  learn-UpToDate :
      UpToDate own heard db
      → (db' : List DbEntry) × (learn own h.rid h.seq (some h.array) db ≡ some db')
        × UpToDate own (heard ++ (h ∷ [])) db'
  unfolding learn
  learn-UpToDate up = elim (Bool-cases (h.rid == own)) [
    | inl mine ↦
        let e : h.rid ≡ own = (==_iff h.rid own).0 mine in
        rw mine (db, refl, same-UpToDate (λ rid n s. absurd (n (sym s ∙ e))) up)
    | inr foreign ↦ rw foreign (
        learn_by-UpToDate (find_entry h.rid db) (λ e. absurd (cc ((==_iff h.rid own).1 e, foreign)))
          refl up)
  ]

learn_all-after :
    (own : ℕ) (seen heard : List DbEntry) (db : List DbEntry)
    → UpToDate own seen db
    → (db' : List DbEntry) × (learn_all own heard db ≡ some db') × UpToDate own (seen ++ heard) db'
learn_all-after own seen [] db up = (db, refl, rw (append-nil seen) up)
learn_all-after own seen (h ∷ heard) db up =
    let (next, e, up') = learn-UpToDate own seen db h up in
    let (last, f, up'') = learn_all-after own (seen ++ (h ∷ [])) heard next up' in
    (
      last,
      ap (on_some (learn_all own heard)) e ∙ f,
      subst (λ l. UpToDate own l last) (append_assoc seen (h ∷ []) heard) up'',
    )

-- A router that starts with an empty database and gets any sequence of messages, each whole: its
-- database holds every other router once and not itself, and of each router the first of the messages
-- with the greatest sequence number, or nothing where none of the messages is of that router.
pub learn_all-UpToDate :
    (own : ℕ) (heard : List DbEntry)
    → (db : List DbEntry) × (learn_all own heard init_mospf_db ≡ some db) × UpToDate own heard db
unfolding init_mospf_db find_entry
learn_all-UpToDate own heard =
    learn_all-after own [] heard [] (record { once = tt; not_own = refl; newest = λ rid n. tt })
