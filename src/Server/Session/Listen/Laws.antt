-- ===== src/Server/Session/Listen/Laws.antt =====
-- Every connection gets the answer to its own request.
use mathlib.Core.List.Perm
use naia_socket.Base.{
  ℕ, zero, suc, ◌≡◌, refl, sym, ap, Bool, true, false, inl, inr, none, some, Option-cases, List, [],
  ◌∷◌, ◌++◌, Perm, map, perm_pull, perm_swap_front, perm_of_eq, append_assoc, append-nil, subst,
  Exec, get_elem?, if◌then◌else◌,
}
use naia_socket.Server.Session.{Lines, Http}
use naia_socket.Server.Session.Listen.{
  connection, accept_error, Sessions, start_session_server, accept, remove, respond, finish, Event,
  accepts, finishes, run,
}

remove-perm :
    (ls : List Lines) (i : ℕ) (l : Lines) → get_elem? ls i ≡ some l → Perm ls (l ∷ remove ls i)
remove-perm [] i l e = cc
remove-perm (k ∷ ls) zero l e = let same : k ≡ l = cc in perm_of_eq (ap (λ x. x ∷ ls) same)
remove-perm (k ∷ ls) (suc i) l e =
    Perm.trans (Perm.cons k (remove-perm ls i l e)) (perm_swap_front k l (remove ls i))

module _ (H : Http) where
  -- The connections that are accepted in a run, where `listening` says whether the loop runs at first.
  abbrev pub accepted : Bool → List (Event H) → List Lines
  accepted listening [] = []
  accepted listening (accepts (connection lines) ∷ es) =
      let rest = accepted listening es in if listening then lines ∷ rest else rest
  accepted listening (accepts accept_error ∷ es) = accepted false es
  accepted listening (finishes i ∷ es) = accepted listening es

  -- A connection with the answer to its request.
  abbrev pub answered : Lines → Lines × Exec (List ℕ)
  answered lines = (lines, respond H lines)

  -- The connections of a state and those that a run from it accepts, and what it makes of them.
  abbrev before : List (Event H) → Sessions → List (Lines × Exec (List ℕ))
  before es s = map answered (s.serving ++ accepted s.listening es) ++ s.served

  abbrev after : List (Event H) → Sessions → List (Lines × Exec (List ℕ))
  after es s = map answered (run H es s).serving ++ (run H es s).served

  finish-some :
      (s : Sessions) (i : ℕ) (l : Lines)
      → get_elem? s.serving i ≡ some l
      → finish H i s ≡ record s { serving = remove s.serving i; served = answered l ∷ s.served }
  unfolding finish
  finish-some s i l e = rw (e, finish) refl

  finish-none : (s : Sessions) (i : ℕ) → get_elem? s.serving i ≡ none → finish H i s ≡ s
  unfolding finish
  finish-none s i e = rw (e, finish) refl

  before-finish :
      (es : List (Event H)) (s : Sessions) (i : ℕ) → Perm (before es s) (before es (finish H i s))
  before-finish es s i = elim (Option-cases (get_elem? s.serving i)) [
    | inl e ↦ perm_of_eq (ap (before es) (sym (finish-none s i e)))
    | inr (l, e) ↦
        let rest = remove s.serving i ++ accepted s.listening es in
        subst (λ x. Perm (before es s) (before es x)) (sym (finish-some s i l e))
          (Perm.trans
            (Perm.append
              (Perm.map answered
                (Perm.append (remove-perm s.serving i l e) (Perm.refl (accepted s.listening es))))
              (Perm.refl s.served))
            (perm_pull (answered l) (map answered rest) s.served))
  ]

  before-accept :
      (es : List (Event H)) (l : Lines) (s : Sessions)
      → before (accepts (connection l) ∷ es) s ≡ before es (accept (connection l) s)
  unfolding accept
  before-accept es l s = go s.listening s.serving s.served
    where
      go :
          (b : Bool) (serving : List Lines) (served : List (Lines × Exec (List ℕ)))
          → before
              (accepts (connection l) ∷ es)
              (record { listening = b; serving = serving; served = served })
            ≡ before es (
                accept
                  (connection l)
                  (record { listening = b; serving = serving; served = served }))
      go true serving served =
          ap (λ k. map answered k ++ served)
            (sym (append_assoc serving (l ∷ []) (accepted true es)))
      go false serving served = refl

  before-after : (es : List (Event H)) (s : Sessions) → Perm (before es s) (after es s)
  unfolding run accept
  before-after [] s = perm_of_eq (ap (λ l. map answered l ++ s.served) (append-nil s.serving))
  before-after (accepts (connection l) ∷ es) s =
      Perm.trans (perm_of_eq (before-accept es l s)) (before-after es (accept (connection l) s))
  before-after (accepts accept_error ∷ es) s = before-after es (record s { listening = false })
  before-after (finishes i ∷ es) s =
      Perm.trans (before-finish es s i) (before-after es (finish H i s))

  -- In any run of a session server, where tasks end in whatever order: the connections that are
  -- accepted while it listens are, as a multiset, those that are still served and those whose
  -- tasks have ended, each of these with what `serve` sends for its own request.
  pub served-perm :
      (bind : ℕ → Bool) (socket_address : ℕ) (es : List (Event H))
      → Perm (map answered (accepted (bind socket_address) es)) (
          map answered (run H es (start_session_server bind socket_address)).serving
          ++ (run H es (start_session_server bind socket_address)).served)
  unfolding start_session_server
  served-perm bind socket_address es =
      Perm.trans (perm_of_eq (sym (append-nil _)))
        (before-after es (start_session_server bind socket_address))
