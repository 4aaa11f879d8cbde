-- ===== src/Shared/Conditioner/Accounts.antt =====
-- What becomes of the packets of a conditioner over many calls, for the client's and the server's
-- link_conditioner.rs alike: a predicate on the packets that came in, the queue before, what went out
-- and the queue behind, with a rule for each thing that a conditioner does with a packet.
use mathlib.Core.List.Perm
use naia_socket.Base.{
  ℕ, ◌+◌, ◌≤◌, ◌≡◌, refl, sym, ap, ◌∙◌, List, [], ◌∷◌, ◌++◌, map, Perm, All, All-append,
  append_assoc, append-nil, perm_append_left, perm_of_eq, perm_left_comm, perm_append_append, subst,
}
use mathlib.Core.List.{map-append, perm_append_comm}
use naia_socket.Shared.Heap.{BinaryHeap}
use naia_socket.Shared.TimeQueue.{ItemContainer, TimeQueue}
use naia_socket.Shared.TimeQueue.Laws.{contents}

module _ {T : Type 0} where
  -- An entry with the moment at which its packet came in.
  abbrev pub came : ℕ × ItemContainer T → ℕ × T
  came (t, c) = (t, c.item)

  abbrev pub entry : ℕ × ItemContainer T → ItemContainer T
  entry (t, c) = c

  -- An entry that was handed out, with a moment by which that was.
  abbrev pub went : ItemContainer T × ℕ → T × ℕ
  went (c, t) = (c.item, t)

  abbrev pub handed_entry : ItemContainer T × ℕ → ItemContainer T
  handed_entry (c, t) = c

-- What goes through two queues, one behind the other.
join {ℓ} :
    {A : Type ℓ} (k k' c c' c'' h h' : List A)
    → Perm (k ++ c) (h ++ c')
    → Perm (k' ++ c') (h' ++ c'')
    → Perm ((k ++ k') ++ c) ((h ++ h') ++ c'')
join k k' c c' c'' h h' p p' = Perm.trans (Perm.append (perm_append_comm k k') (Perm.refl c)) (
    Perm.trans (perm_of_eq (append_assoc k' k c)) (
      Perm.trans (perm_append_left k' p) (
        Perm.trans (perm_left_comm k' h c')
          (Perm.trans (perm_append_left h p') (perm_of_eq (sym (append_assoc h h' c'')))))))

cong_append {ℓ} :
    {A : Type ℓ} {xs xs' ys ys' : List A} → xs ≡ xs' → ys ≡ ys' → xs ++ ys ≡ xs' ++ ys'
cong_append e f = rw (e, f) refl

abbrev pub at : {A : Type 0} → ℕ → A → ℕ × A
at t a = (t, a)

map-came :
    {T : Type 0} (t : ℕ) (cs : List (ItemContainer T))
    → map (at t) (map (λ c. c.item) cs) ≡ map came (map (at t) cs)
map-came t [] = refl
map-came t (c ∷ cs) = ap (λ l. (t, c.item) ∷ l) (map-came t cs)

map-entry : {T : Type 0} (t : ℕ) (cs : List (ItemContainer T)) → map entry (map (at t) cs) ≡ cs
map-entry t [] = refl
map-entry t (c ∷ cs) = ap (λ l. c ∷ l) (map-entry t cs)

held_at :
    {A : Type 0} (P : ℕ → A → Type 0) (t : ℕ) (xs : List A)
    → All (P t) xs
    → All (λ (s, x). P s x) (map (at t) xs)
held_at P t [] h = tt
held_at P t (x ∷ xs) h = (h.0, held_at P t xs h.1)

module _ {T : Type 0} (B : BinaryHeap (ItemContainer T)) (hold : ℕ) where
  -- Each packet that came in was kept or lost; a kept one is due `hold` or more behind the moment at
  -- which it came; the entries kept and those of the queue before are those handed out and those of
  -- the queue behind; and what went out are the packets handed out, in order, each when it was due.
  pub record Accounts (arrived : List (ℕ × T)) (q : TimeQueue B) (out : List (T × ℕ))
      (q' : TimeQueue B) : Type 0 where
    pub kept : List (ℕ × ItemContainer T)
    pub lost : List (ℕ × T)
    pub handed : List (ItemContainer T × ℕ)
    pub split : Perm arrived (map came kept ++ lost)
    pub held : All (λ (t, c). t + hold ≤ c.instant) kept
    pub entries : Perm (map entry kept ++ contents B q) (map handed_entry handed ++ contents B q')
    pub in_order : map went handed ≡ out
    pub in_time : All (λ (c, t). c.instant ≤ t) handed

  pub Accounts-none : (q : TimeQueue B) → Accounts [] q [] q
  Accounts-none q = record {
    kept = [];
    lost = [];
    handed = [];
    split = Perm.refl _;
    held = tt;
    entries = Perm.refl _;
    in_order = refl;
    in_time = tt;
  }

  -- A packet is lost.
  pub Accounts-lose : (t : ℕ) (p : T) (q : TimeQueue B) → Accounts ((t, p) ∷ []) q [] q
  Accounts-lose t p q = record {
    kept = [];
    lost = (t, p) ∷ [];
    handed = [];
    split = Perm.refl _;
    held = tt;
    entries = Perm.refl _;
    in_order = refl;
    in_time = tt;
  }

  -- A packet is queued.
  pub Accounts-keep :
      (t : ℕ) (c : ItemContainer T) (q q' : TimeQueue B)
      → t + hold ≤ c.instant
      → Perm (contents B q') (c ∷ contents B q)
      → Accounts ((t, c.item) ∷ []) q [] q'
  Accounts-keep t c q q' h p = record {
    kept = (t, c) ∷ [];
    lost = [];
    handed = [];
    split = Perm.refl _;
    held = (h, tt);
    entries = Perm.symm p;
    in_order = refl;
    in_time = tt;
  }

  -- Some packets that come in at one moment are queued, and the others are lost.
  pub Accounts-take :
      (t : ℕ) (ps lost : List T) (queued : List (ItemContainer T)) (q q' : TimeQueue B)
      → Perm ps (map (λ c. c.item) queued ++ lost)
      → All (λ c. t + hold ≤ c.instant) queued
      → Perm (contents B q') (queued ++ contents B q)
      → Accounts (map (at t) ps) q [] q'
  Accounts-take t ps lost queued q q' p h e = record {
    kept = map (at t) queued;
    lost = map (at t) lost;
    handed = [];
    split = Perm.trans (Perm.map (at t) p) (
        perm_of_eq (
          map-append (at t) (map (λ c. c.item) queued) lost
          ∙ ap (λ l. l ++ map (at t) lost) (map-came t queued)));
    held = held_at (λ t c. t + hold ≤ c.instant) t queued h;
    entries = rw (map-entry t queued) (Perm.symm e);
    in_order = refl;
    in_time = tt;
  }

  -- An entry that is due goes out.
  pub Accounts-hand :
      (c : ItemContainer T) (t : ℕ) (q q' : TimeQueue B)
      → c.instant ≤ t
      → Perm (contents B q) (c ∷ contents B q')
      → Accounts [] q ((c.item, t) ∷ []) q'
  Accounts-hand c t q q' h p = record {
    kept = [];
    lost = [];
    handed = (c, t) ∷ [];
    split = Perm.refl _;
    held = tt;
    entries = p;
    in_order = refl;
    in_time = (h, tt);
  }

  -- One after the other.
  pub Accounts-append :
      {a a' : List (ℕ × T)} {q q' q'' : TimeQueue B} {o o' : List (T × ℕ)}
      → Accounts a q o q'
      → Accounts a' q' o' q''
      → Accounts (a ++ a') q (o ++ o') q''
  Accounts-append {q} {q'} {q''} x y = record {
    kept = x.kept ++ y.kept;
    lost = x.lost ++ y.lost;
    handed = x.handed ++ y.handed;
    split = rw (map-append came x.kept y.kept) (
        Perm.trans (Perm.append x.split y.split)
          (perm_append_append (map came x.kept) x.lost (map came y.kept) y.lost));
    held = All-append _ x.kept y.kept x.held y.held;
    entries =
        rw (map-append entry x.kept y.kept, map-append handed_entry x.handed y.handed)
          (join (map entry x.kept) (map entry y.kept) (contents B q) (contents B q')
            (contents B q'') (map handed_entry x.handed) (map handed_entry y.handed) x.entries
            y.entries);
    in_order = map-append went x.handed y.handed ∙ cong_append x.in_order y.in_order;
    in_time = All-append _ x.handed y.handed x.in_time y.in_time;
  }

  -- Nothing more comes in.
  pub Accounts-then :
      {a : List (ℕ × T)} {q q' q'' : TimeQueue B} {o : List (T × ℕ)}
      → Accounts a q [] q'
      → Accounts [] q' o q''
      → Accounts a q o q''
  Accounts-then {a} {q} {q''} {o} x y =
      subst (λ l. Accounts l q o q'') (append-nil a) (Accounts-append x y)
