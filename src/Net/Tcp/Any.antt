-- ===== src/Net/Tcp/Any.antt =====
-- What holds of the result of a step of the TCP stack that can fail.
use ucas_coursework.Prelude.{◌≡◌, Bool, Option, none, some, on_some, some_inj}
use ucas_coursework.Net.Tcp.{Link, never, linked, stale}
use ucas_coursework.Net.Tcp.Table.{if_linked, if_unlinked}
use ucas_coursework.Net.Tcp.Input.{and_then}

-- What holds of the result, if there is one.
abbrev pub Any {ℓ κ} : {A : Type ℓ} → (A → Type κ) → Option A → Type κ
Any P none = Unit
Any P (some x) = P x

pub Any-on_some {ℓ κ μ ν} :
    {A : Type ℓ} {B : Type κ} (P : A → Type μ) (Q : B → Type ν) (f : A → Option B) (o : Option A)
    → Any P o
    → ((x : A) → P x → Any Q (f x))
    → Any Q (on_some f o)
Any-on_some P Q f none p h = tt
Any-on_some P Q f (some x) p h = h x p

pub Any-some {ℓ κ} :
    {A : Type ℓ} (P : A → Type κ) (o : Option A) (x : A) → Any P o → o ≡ some x → P x
Any-some P none x p e = absurd cc
Any-some P (some y) x p e = coe 0 1 (i. P (some_inj e i)) p

-- The equations are what the tactics split on.
pub if_linked-Any {ℓ κ} :
    {A : Type ℓ} (P : A → Type κ) (l : Link) (x : A) → P x → Any P (if_linked l x)
if_linked-Any P linked x p = p
if_linked-Any P never x p = tt
if_linked-Any P stale x p = tt

pub Any-all {ℓ} : {A : Type ℓ} (o : Option A) → Any (λ x. Unit {0}) o
Any-all none = tt
Any-all (some x) = tt

pub Any-mono {ℓ κ μ} :
    {A : Type ℓ} (P : A → Type κ) (Q : A → Type μ) (o : Option A)
    → Any P o
    → ((x : A) → P x → Q x)
    → Any Q o
Any-mono P Q none p h = tt
Any-mono P Q (some x) p h = h x p

pub if_unlinked-Any {ℓ κ} :
    {A : Type ℓ} (P : A → Type κ) (l : Link) (x : A) → P x → Any P (if_unlinked l x)
if_unlinked-Any P linked x p = tt
if_unlinked-Any P never x p = p
if_unlinked-Any P stale x p = p

pub Any-and_then {ℓ κ μ ν} :
    {A : Type ℓ} {B : Type κ} (P : Bool × A → Type μ) (Q : B → Type ν) (f : A → B)
    (o : Option (Bool × A))
    → Any P o
    → ((p : Bool × A) → P p → Q (f p.1))
    → Any Q (and_then f o)
Any-and_then P Q f none p h = tt
Any-and_then P Q f (some x) p h = h x p
