-- ===== src/Registry/Refinement.antt =====
-- The registry as a finite map from keys to sessions.
use devhatch.Session.{Session, mark_deleting, is_agent, is_live}
use devhatch.Registry.IndexMap.{
  SessionKey, SessionMap, get, put, shift_remove, same_key, get-put, get-shift_remove, Unique,
  Unique-put, Unique-shift_remove,
}
use devhatch.Registry.{
  RegistryState, key_of, default, insert, retire, remove, remove_same, remove_if_same,
  begin_shutdown, retire_agent,
}
use devhatch.Prelude.{
  ℕ, ◌≡◌, refl, ap, ◌∙◌, subst, inl, inr, Bool, true, false, ◌||◌, Option, none, some, List, [],
  ◌∷◌, arith, if◌then◌else◌, eqb, Bool-cases, is_some, is_some_and, nat_eq, string_eq, option_eq,
}

-- The operations that change the registry; a session is given by its handle.
pub data Change : Type 0 where
  added : (session : ℕ) → Change
  removed : (now : ℕ) (key : SessionKey) → Change
  dropped : (session : ℕ) → Change
  closed : Change

unfoldable pub change : Change → RegistryState → RegistryState
change (added session) r = (insert session r).0
change (removed now key) r = (remove now key r).0
change (dropped session) r = remove_if_same session r
change closed r = (begin_shutdown r).0

unfoldable pub change_all : List Change → RegistryState → RegistryState
change_all [] r = r
change_all (c ∷ changes) r = change_all changes (change c r)

-- What a registry promises: which session has a key, and whether new ones are refused.
pub record Directory : Type 0 where
  pub at : SessionKey → Option ℕ
  pub is_closed : Bool

abbrev pub put_at : SessionKey → Option ℕ → (SessionKey → Option ℕ) → SessionKey → Option ℕ
put_at key value at other = if same_key key other then value else at other

-- The changes of a directory, for the keys that the sessions have.
unfoldable pub change_directory : (ℕ → SessionKey) → Change → Directory → Directory
change_directory key_at (added session) d =
    if d.is_closed || is_some (d.at (key_at session))
    then d
    else record d { at = put_at (key_at session) (some session) d.at }
change_directory key_at (removed now key) d = record d { at = put_at key none d.at }
change_directory key_at (dropped session) d = record d {
  at =
      if is_some_and (d.at (key_at session)) (λ current. eqb current session)
      then put_at (key_at session) none d.at
      else d.at;
}
change_directory key_at closed d = record d { is_closed = true }

unfoldable pub directory_after : (ℕ → SessionKey) → List Change → Directory → Directory
directory_after key_at [] d = d
directory_after key_at (c ∷ changes) d =
    directory_after key_at changes (change_directory key_at c d)

-- The registry has the entries of the directory, one for each key, and sessions keep their keys.
pub record Implements (key_at : ℕ → SessionKey) (r : RegistryState) (d : Directory) : Type 0 where
  pub keys : (session : ℕ) → key_of r.store session ≡ key_at session
  pub unique : Unique r.sessions
  pub unique_terminating : Unique r.terminating_agents
  pub found : (key : SessionKey) → get key r.sessions ≡ d.at key
  pub flag : r.shutting_down ≡ d.is_closed

mark_deleting-key :
    (now : ℕ) (s : Session) (n : ℕ)
    → ((mark_deleting now s n).session.kind ≡ s.kind) × ((mark_deleting now s n).session.id ≡ s.id)
unfolding mark_deleting
mark_deleting-key now s n = elim (Bool-cases s.deleting) [
  | inl e ↦ simp e (refl, refl)
  | inr e ↦ elim (Bool-cases (is_agent s.kind)) [
    | inl agent ↦ simp (e, agent) (refl, refl)
    | inr terminal ↦ simp (e, terminal) (refl, refl)
  ]
]

Unique-if : (b : Bool) (m m' : SessionMap) → Unique m → Unique m' → Unique (if b then m else m')
Unique-if true m m' u v = u
Unique-if false m m' u v = v

eq_of_eqb : (m n : ℕ) → eqb m n ≡ true → m ≡ n
eq_of_eqb m n h = ground arith

module _ (key_at : ℕ → SessionKey) where
  put-Implements :
      (r : RegistryState) (d : Directory) (session : ℕ)
      → Implements key_at r d
      → Implements key_at
          (record r { sessions = put (key_of r.store session) session r.sessions })
          (record d { at = put_at (key_at session) (some session) d.at })
  put-Implements r d session i = record {
    keys = i.keys;
    unique = Unique-put (key_of r.store session) session r.sessions i.unique;
    unique_terminating = i.unique_terminating;
    found = λ key.
        get-put key (key_of r.store session) session r.sessions
        ∙ ap (λ k. if same_key k key then some session else get key r.sessions) (i.keys session)
        ∙ ap (λ o. if same_key (key_at session) key then some session else o) (i.found key);
    flag = i.flag;
  }

  shift_remove-Implements :
      (r : RegistryState) (d : Directory) (gone : SessionKey)
      → Implements key_at r d
      → Implements key_at
          (record r { sessions = shift_remove gone r.sessions })
          (record d { at = put_at gone none d.at })
  shift_remove-Implements r d gone i = record {
    keys = i.keys;
    unique = Unique-shift_remove gone r.sessions i.unique;
    unique_terminating = i.unique_terminating;
    found = λ key.
        get-shift_remove key gone r.sessions i.unique
        ∙ ap (λ o. if same_key gone key then none else o) (i.found key);
    flag = i.flag;
  }

  retire-Implements :
      (r : RegistryState) (d : Directory) (now : ℕ) (key : SessionKey) (session : ℕ)
      → Implements key_at r d
      → Implements key_at (retire now key session r) d
  unfolding retire
  retire-Implements r d now key session i = record {
    keys = λ other. elim (Bool-cases (eqb session other)) [
      | inl e ↦
          let (kind, id) = mark_deleting-key now (r.store session) r.agent_event_sequence in
          rw (e, kind, id) (i.keys session ∙ ap key_at (eq_of_eqb session other e))
      | inr e ↦ rw e (i.keys other)
    ];
    unique = i.unique;
    unique_terminating =
        Unique-if (is_live (r.store session)) (put key session r.terminating_agents)
          r.terminating_agents (Unique-put key session r.terminating_agents i.unique_terminating)
          i.unique_terminating;
    found = i.found;
    flag = i.flag;
  }

  retire_agent-Implements :
      (r : RegistryState) (d : Directory) (now : ℕ) (key : SessionKey) (found : Option ℕ)
      → Implements key_at r d
      → Implements key_at (retire_agent now key found r) d
  unfolding retire_agent
  retire_agent-Implements r d now key none i = i
  retire_agent-Implements r d now key (some session) i = elim (Bool-cases (is_agent key.kind)) [
    | inl agent ↦ simp agent (retire-Implements r d now key session i)
    | inr terminal ↦ simp terminal i
  ]

  insert-open :
      (session : ℕ) (r : RegistryState)
      → r.shutting_down ≡ false
      → is_some (get (key_of r.store session) r.sessions) ≡ false
      → record r { sessions = put (key_of r.store session) session r.sessions }
        ≡ (insert session r).0
  unfolding insert
  insert-open session r c e = simp (c, e) refl

  added-open :
      (session : ℕ) (d : Directory)
      → d.is_closed ≡ false
      → is_some (d.at (key_at session)) ≡ false
      → record d { at = put_at (key_at session) (some session) d.at }
        ≡ change_directory key_at (added session) d
  unfolding change_directory
  added-open session d c e = simp (c, e) refl

  module _ (r : RegistryState) (d : Directory) (i : Implements key_at r d) where
    found_at : (session : ℕ) → get (key_of r.store session) r.sessions ≡ d.at (key_at session)
    found_at session = ap (λ k. get k r.sessions) (i.keys session) ∙ i.found (key_at session)

    insert-Implements :
        (session : ℕ)
        → Implements key_at (insert session r).0 (change_directory key_at (added session) d)
    unfolding insert change_directory
    insert-Implements session = elim (Bool-cases d.is_closed) [
      | inl c ↦ simp (i.flag ∙ c, c) i
      | inr c ↦ elim (Bool-cases (is_some (d.at (key_at session)))) [
        | inl e ↦ simp (i.flag ∙ c, c, found_at session, e) i
        | inr e ↦
            subst (λ x. Implements key_at x (change_directory key_at (added session) d))
              (insert-open session r (i.flag ∙ c) (ap is_some (found_at session) ∙ e))
              (subst
                (Implements key_at
                  (record r { sessions = put (key_of r.store session) session r.sessions }))
                (added-open session d c e) (put-Implements r d session i))
      ]
    ]

    remove-Implements :
        (now : ℕ) (key : SessionKey)
        → Implements key_at (remove now key r).0 (change_directory key_at (removed now key) d)
    unfolding remove change_directory
    remove-Implements now key =
        retire_agent-Implements _ _ now key (get key r.sessions) (shift_remove-Implements r d key i)

    Unique-remove_same :
        (key : SessionKey) (session : ℕ) (m : SessionMap)
        → Unique m
        → Unique (remove_same key session m)
    unfolding remove_same
    Unique-remove_same key session m u =
        Unique-if (is_some_and (get key m) (λ current. eqb current session)) (shift_remove key m) m
          (Unique-shift_remove key m u) u

    found_without :
        (session : ℕ) (key : SessionKey)
        → get key (remove_same (key_of r.store session) session r.sessions)
          ≡ (change_directory key_at (dropped session) d).at key
    unfolding remove_same change_directory
    found_without session key =
        elim (Bool-cases (is_some_and (d.at (key_at session)) (λ current. eqb current session))) [
          | inl e ↦
              rw
                (ap (λ o. is_some_and o (λ current. eqb current session)) (found_at session) ∙ e, e)
                (get-shift_remove key (key_of r.store session) r.sessions i.unique
                  ∙ ap (λ k. if same_key k key then none else get key r.sessions) (i.keys session)
                  ∙ ap (λ o. if same_key (key_at session) key then none else o) (i.found key))
          | inr e ↦
              rw
                (ap (λ o. is_some_and o (λ current. eqb current session)) (found_at session) ∙ e, e)
                (i.found key)
        ]

    remove_if_same-Implements :
        (session : ℕ)
        → Implements key_at (remove_if_same session r) (change_directory key_at (dropped session) d)
    unfolding remove_if_same change_directory
    remove_if_same-Implements session = record {
      keys = i.keys;
      unique = Unique-remove_same (key_of r.store session) session r.sessions i.unique;
      unique_terminating =
          Unique-remove_same (key_of r.store session) session r.terminating_agents
            i.unique_terminating;
      found = found_without session;
      flag = i.flag;
    }

    change-Implements : (c : Change) → Implements key_at (change c r) (change_directory key_at c d)
    unfolding change change_directory begin_shutdown
    change-Implements (added session) = insert-Implements session
    change-Implements (removed now key) = remove-Implements now key
    change-Implements (dropped session) = remove_if_same-Implements session
    change-Implements closed = record {
      keys = i.keys;
      unique = i.unique;
      unique_terminating = i.unique_terminating;
      found = i.found;
      flag = refl;
    }

  change_all-Implements :
      (changes : List Change) (r : RegistryState) (d : Directory)
      → Implements key_at r d
      → Implements key_at (change_all changes r) (directory_after key_at changes d)
  unfolding change_all directory_after
  change_all-Implements [] r d i = i
  change_all-Implements (c ∷ changes) r d i =
      change_all-Implements changes (change c r) (change_directory key_at c d)
        (change-Implements r d i c)

abbrev pub empty_directory : Directory
empty_directory = record { at = λ key. none; is_closed = false }

-- After any changes of a new registry, in any order, it implements the directory after the same
-- changes: a lookup finds the session that was put in under the key and not taken out since, a session
-- is refused when its key is taken or the registry is closed, the removal of a session takes out
-- no other one that has its key, no key has two entries, and sessions keep their keys.
pub change_all-default-Implements :
    (store : ℕ → Session) (changes : List Change)
    → Implements
        (key_of store)
        (change_all changes (default store))
        (directory_after (key_of store) changes empty_directory)
unfolding default get
change_all-default-Implements store changes =
    change_all-Implements (key_of store) changes _ empty_directory (record {
      keys = λ session. refl;
      unique = tt;
      unique_terminating = tt;
      found = λ key. refl;
      flag = refl;
    })
