-- ===== src/Mospf/Learnt.antt =====
-- What one link state message does to the database of mospf_daemon.c, Computer Networks/pr6-网络路由实验二.
use ucas_coursework.Prelude.{
  ℕ, ◌≤◌, ◌≢◌, Option, none, some_inj, ==_refl, ◌<◌, ◌≡◌, refl, sym, ap, ◌∙◌, inl, inr, some, List,
  [], ◌∷◌, ◌++◌, arith, ==_ne, ltb, Bool-cases,
}
use ucas_coursework.Mospf.{Lsa, DbEntry}
use ucas_coursework.Mospf.Database.{find_entry, set_entry, new_entry, learn_by, learn}
use ucas_coursework.Mospf.Newest.{find-snoc, find-snoc_other, find-set, find-set_other}

-- What a router has, by the array of each router that it knows of, when a message of `rid` with the
-- number `seq` came in: a message that is not newer changes nothing; of a newer one it has the array;
-- and of the other routers it has what it had.
pub record Learnt (rid seq : ℕ) (lsa : List Lsa) (old db : List DbEntry) : Type 0 where
  pub stale : (e : DbEntry) → find_entry rid old ≡ some e → seq ≤ e.seq → db ≡ old
  pub newer :
      ((e : DbEntry) → find_entry rid old ≡ some e → e.seq < seq)
      → find_entry rid db ≡ some (record { rid = rid; seq = seq; array = lsa })
  pub others : (r : ℕ) → rid ≢ r → find_entry r db ≡ find_entry r old

learn_by-Learnt :
    (rid seq : ℕ) (lsa : List Lsa) (db : List DbEntry) (found : Option DbEntry)
    → find_entry rid db ≡ found
    → (db' : List DbEntry) × (learn_by rid seq (some lsa) db found ≡ some db')
      × Learnt rid seq lsa db db'
learn_by-Learnt rid seq lsa db none e = (
  db ++ (new_entry rid seq lsa ∷ []),
  refl,
  record {
    stale = λ f g le. absurd (cc (e, g));
    newer = λ h. find-snoc rid db (new_entry rid seq lsa) e ∙ rw (==_refl rid) refl;
    others = λ r ne. find-snoc_other r db (new_entry rid seq lsa) ne;
  },
)
learn_by-Learnt rid seq lsa db (some f) e = elim (Bool-cases (ltb f.seq seq)) [
  | inl newer ↦ rw newer (
    set_entry (new_entry rid seq lsa) db,
    refl,
    record {
      stale = λ g h le.
          let same : f ≡ g = some_inj (sym e ∙ h) in
          absurd (ground (arith, ap (λ d. d.seq) same, newer));
      newer = λ h. find-set db (new_entry rid seq lsa) f e;
      others = λ r ne. find-set_other r db (new_entry rid seq lsa) ne;
    },
  )
  | inr older ↦ rw older (
    db,
    refl,
    record {
      stale = λ g h le. refl;
      newer = λ h. absurd (ground (arith, h f e, older));
      others = λ r ne. refl;
    },
  )
]

pub learn-Learnt :
    (own rid seq : ℕ) (lsa : List Lsa) (db : List DbEntry)
    → rid ≢ own
    → (db' : List DbEntry) × (learn own rid seq (some lsa) db ≡ some db')
      × Learnt rid seq lsa db db'
unfolding learn
learn-Learnt own rid seq lsa db ne =
    rw (==_ne rid own ne) (learn_by-Learnt rid seq lsa db (find_entry rid db) refl)
