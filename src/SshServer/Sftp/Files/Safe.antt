-- ===== src/SshServer/Sftp/Files/Safe.antt =====
-- The handles of src/server/ssh_server/sftp.cc: each stands for an open directory or an open file, as
-- its type says.
use genode_world.Prelude.{
  ℕ, suc, ◌≤◌, ◌<◌, ◌==◌, if◌then◌else◌, true, Bool-cases, List, [], ◌∷◌, none, some, ◌≡◌, ◌⊎◌, inl,
  inr, refl, sym, ap, ◌∙◌, subst, arith, if-true, if-false, list_eq, list_eq_sound, Option, none,
  some,
}
use genode_world.SshServer.Sftp.Host.{Host, Handle, hdir, hfile, HandleType, StatMode}
use genode_world.SshServer.Sftp.Calls.{find, destroy, set_eof}

abbrev pub TypedAs : HandleType → Handle → Type 0
TypedAs hdir h = (d : ℕ) × (h.dir ≡ some d)
TypedAs hfile h = (f : ℕ) × (h.file ≡ some f)

-- Every handle has what its type says; the addresses are below the bound and descend.
abbrev pub AllTyped : ℕ → List Handle → Type 0
AllTyped next [] = Unit
AllTyped next (h ∷ hs) = TypedAs h.type h × (h.address < next) × AllTyped h.address hs

set_eof-AllTyped : (p next : ℕ) (hs : List Handle) → AllTyped next hs → AllTyped next (set_eof p hs)
set_eof-AllTyped p next [] t = tt
set_eof-AllTyped p next (h ∷ hs) (t, lt, ts) = elim (Bool-cases (h.address == p)) [
  | inl e ↦
      subst (AllTyped next) (sym (if-true (h.address == p) _ _ e)) (as_before h.type t, lt, ts)
  | inr e ↦
      subst (AllTyped next) (sym (if-false (h.address == p) _ _ e))
        (t, lt, set_eof-AllTyped p h.address hs ts)
]
  where
    as_before : (y : HandleType) → TypedAs y h → TypedAs y (record h { eof = true })
    as_before hdir x = x
    as_before hfile x = x

pub find_typed :
    (p next : ℕ) (hs : List Handle) (h : Handle)
    → AllTyped next hs
    → find p hs ≡ some h
    → TypedAs h.type h × (h.address ≡ p) × (p < next)
find_typed p next [] h t e = cc
find_typed p next (k ∷ hs) h (t, lt, ts) e = elim (Bool-cases (k.address == p)) [
  | inl c ↦
      let s : some k ≡ some h = sym (if-true (k.address == p) _ _ c) ∙ e in
      let q : k ≡ h = cc in
      let a : k.address ≡ p = ground (arith, c) in
      (subst (λ x. TypedAs x.type x) q t, ap (λ (x : Handle). x.address) (sym q) ∙ a, omega arith)
  | inr c ↦
      let (y, a, below) =
        find_typed p k.address hs h ts (sym (if-false (k.address == p) _ _ c) ∙ e) in
      (y, a, omega arith)
]

find_above : (p next : ℕ) (hs : List Handle) → AllTyped next hs → next ≤ p → find p hs ≡ none
find_above p next [] t le = refl
find_above p next (h ∷ hs) (t, lt, ts) le =
    if-false (h.address == p) _ _ (ground arith) ∙ find_above p h.address hs ts (omega arith)

-- An object that is destroyed is not found any more.
pub find-destroy : (p next : ℕ) (hs : List Handle) → AllTyped next hs → find p (destroy p hs) ≡ none
find-destroy p next [] t = refl
find-destroy p next (h ∷ hs) (t, lt, ts) = elim (Bool-cases (h.address == p)) [
  | inl e ↦
      ap (find p) (if-true (h.address == p) _ _ e)
      ∙ find_above p h.address hs ts (ground (arith, e))
  | inr e ↦
      ap (find p) (if-false (h.address == p) _ _ e)
      ∙ if-false (h.address == p) _ _ e
      ∙ find-destroy p h.address hs ts
]

find-set_eof :
    (p q : ℕ) (hs : List Handle) (h : Handle)
    → find q hs ≡ some h
    → (h' : Handle) × (find q (set_eof p hs) ≡ some h')
find-set_eof p q [] h e = cc
find-set_eof p q (k ∷ hs) h e = elim (Bool-cases (k.address == p)) [
  | inl c ↦ elim (Bool-cases (k.address == q)) [
    | inl d ↦ (
      record k { eof = true },
      ap (find q) (if-true (k.address == p) _ _ c) ∙ if-true (k.address == q) _ _ d,
    )
    | inr d ↦ (
      h,
      ap (find q) (if-true (k.address == p) _ _ c)
          ∙ if-false (k.address == q) _ _ d
          ∙ sym (if-false (k.address == q) _ _ d)
          ∙ e,
    )
  ]
  | inr c ↦ elim (Bool-cases (k.address == q)) [
    | inl d ↦ (k, ap (find q) (if-false (k.address == p) _ _ c) ∙ if-true (k.address == q) _ _ d)
    | inr d ↦
        let (h', e') = find-set_eof p q hs h (sym (if-false (k.address == q) _ _ d) ∙ e) in
        (h', ap (find q) (if-false (k.address == p) _ _ c) ∙ if-false (k.address == q) _ _ d ∙ e')
  ]
]

abbrev pub unless : ℕ → Option ℕ → Option ℕ
unless p none = none
unless p (some q) = if q == p then none else some q

-- The table of libssh: what its operations do to the handles that are found, and the entries of a
-- directory, which are fewer after each that is read.
pub record IsLawful {F T : Type 0} (host : Host F T) (entries : ℕ → F → ℕ) : Type 0 where
  pub alloc_lem :
      (p : ℕ) (t t' : T) (key k : List ℕ)
      → host.handle_alloc p t ≡ some (key, t')
      → host.find_handle k t' ≡ (if list_eq k key then some p else host.find_handle k t)
  pub remove_lem :
      (p : ℕ) (t : T) (k : List ℕ)
      → host.find_handle k (host.handle_remove p t) ≡ unless p (host.find_handle k t)
  pub readdir_lem :
      (d : ℕ) (f : F) (name : List ℕ)
      → (host.readdir d f).0 ≡ some name
      → entries d (host.readdir d f).1 < entries d f
  pub stat_lem :
      (d : ℕ) (path : List ℕ) (f : F) (mode : StatMode)
      → entries d (host.get_stat mode path f).1 ≤ entries d f

module _ {F T : Type 0} (host : Host F T) where
  -- Every handle is typed, and the table finds handles that there are.
  pub record Safe (table : T) (handles : List Handle) (next : ℕ) : Type 0 where
    pub typed : AllTyped next handles
    pub found :
        (key : List ℕ) (p : ℕ)
        → host.find_handle key table ≡ some p
        → (h : Handle) × (find p handles ≡ some h)

module _ {F T : Type 0} (host : Host F T) (entries : ℕ → F → ℕ)
    (lawful : IsLawful host entries) where
  pub set_eof-Safe :
      (p : ℕ) (t : T) (hs : List Handle) (n : ℕ) → Safe host t hs n → Safe host t (set_eof p hs) n
  set_eof-Safe p t hs n s = record {
    typed = set_eof-AllTyped p n hs s.typed;
    found = λ key q e. let (h, e') = s.found key q e in find-set_eof p q hs h e';
  }

  -- A new object, before libssh knows it.
  pub object-Safe :
      (h : Handle) (t : T) (hs : List Handle) (n : ℕ)
      → TypedAs h.type h
      → Safe host t hs n
      → Safe host t (record h { address = n } ∷ hs) (suc n)
  object-Safe h t hs n ty s = record {
    typed = (at_address h.type ty, omega arith, s.typed);
    found = λ key q e.
        let (k, f) = s.found key q e in
        let (y, a, lt) = find_typed q n hs k s.typed f in
        (k, if-false (n == q) _ _ (ground arith) ∙ f);
  }
    where
      at_address : (y : HandleType) → TypedAs y h → TypedAs y (record h { address = n })
      at_address hdir x = x
      at_address hfile x = x

  pub alloc-Safe :
      (h : Handle) (t t' : T) (key : List ℕ) (hs : List Handle) (n : ℕ)
      → TypedAs h.type h
      → host.handle_alloc n t ≡ some (key, t')
      → Safe host t hs n
      → Safe host t' (record h { address = n } ∷ hs) (suc n)
  alloc-Safe h t t' key hs n ty al s =
      let o = object-Safe h t hs n ty s in record { typed = o.typed; found = found_ }
    where
      split :
          (k : List ℕ) (q : ℕ)
          → host.find_handle k t' ≡ some q
          → ((k ≡ key) × (q ≡ n)) ⊎ (host.find_handle k t ≡ some q)
      split k q e = elim (Bool-cases (list_eq k key)) [
        | inl c ↦
            let p : some n ≡ some q =
              sym (lawful.alloc_lem n t t' key k al ∙ if-true (list_eq k key) _ _ c) ∙ e in
            inl (list_eq_sound k key c, cc)
        | inr c ↦ inr (sym (lawful.alloc_lem n t t' key k al ∙ if-false (list_eq k key) _ _ c) ∙ e)
      ]

      found_ :
          (k : List ℕ) (q : ℕ)
          → host.find_handle k t' ≡ some q
          → (h' : Handle) × (find q (record h { address = n } ∷ hs) ≡ some h')
      found_ k q e = elim (split k q e) [
        | inl (a, b) ↦ (record h { address = n }, if-true (n == q) _ _ (ground (arith, b)))
        | inr old ↦ (object-Safe h t hs n ty s).found k q old
      ]
