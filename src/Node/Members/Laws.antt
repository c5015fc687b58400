-- ===== src/Node/Members/Laws.antt =====
-- pkg/raft/node.go: who is a member after Join.
use doq.Common.{
  ◌≡◌, ◌≢◌, refl, sym, ap, true, false, ◌&&◌, ◌||◌, List, [], ◌∷◌, Bool-cases, ◌⊎◌, inl, inr,
}
use doq.Common.Text.{Text, text_eq, text_eq_refl, eq_of_text_eq}
use doq.Errors.{ok, Result-cases}
use doq.Node.Members.{Server, Membership, join_loop, join}

unfoldable pub In : Server → List Server → Type 0
In x [] = ⊥
In x (y ∷ servers) = (x ≡ y) ⊎ In x servers

abbrev pub server : Text → Text → Server
server id address = record { id = id; address = address }

-- What hashicorp/raft documents: GetConfiguration lists the members, RemoveServer takes out the one with
-- the id, and AddVoter puts one in, in the place of one with its id if there is one.
pub record IsLawful (R : Membership) (IsMember : R.State → Server → Type 0) : Type 0 where
  pub listed :
      (s : R.State) (l : List Server) (x : Server) → R.servers s ≡ ok l → In x l → IsMember s x
  pub complete :
      (s : R.State) (l : List Server) (x : Server) → R.servers s ≡ ok l → IsMember s x → In x l
  pub removed :
      (s s' : R.State) (id : Text) (x : Server)
      → R.remove_server s id ≡ ok s'
      → IsMember s' x
      → IsMember s x × (x.id ≢ id)
  pub kept :
      (s s' : R.State) (id : Text) (x : Server)
      → R.remove_server s id ≡ ok s'
      → IsMember s x
      → x.id ≢ id
      → IsMember s' x
  pub added :
      (s s' : R.State) (id address : Text)
      → R.add_voter s id address ≡ ok s'
      → IsMember s' (server id address)
  pub added_only :
      (s s' : R.State) (id address : Text) (x : Server)
      → R.add_voter s id address ≡ ok s'
      → IsMember s' x
      → (x ≡ server id address) ⊎ IsMember s x
  pub added_kept :
      (s s' : R.State) (id address : Text) (x : Server)
      → R.add_voter s id address ≡ ok s'
      → IsMember s x
      → x.id ≢ id
      → IsMember s' x

module _ (R : Membership) (IsMember : R.State → Server → Type 0) where
  -- No two members share an id or an address.
  pub record IsUnique (s : R.State) : Type 0 where
    pub by_id : (x y : Server) → IsMember s x → IsMember s y → x.id ≡ y.id → x ≡ y
    pub by_address : (x y : Server) → IsMember s x → IsMember s y → x.address ≡ y.address → x ≡ y

  module _ (s : R.State) (node_id addr : Text) where
    abbrev pub Conflicts : Server → Type 0
    Conflicts x = (x.id ≡ node_id) ⊎ (x.address ≡ addr)

    pub record Joined (s' : R.State) : Type 0 where
      pub present : IsMember s' (server node_id addr)
      pub only :
          (x : Server) → IsMember s' x → (x ≡ server node_id addr) ⊎ (IsMember s x × ¬ Conflicts x)
      pub others : (x : Server) → IsMember s x → ¬ Conflicts x → IsMember s' x

    record Looped (t : R.State) (rest : List Server) : Type 0 where
      from : (x : Server) → IsMember t x → IsMember s x × (Conflicts x → In x rest)
      other : (x : Server) → IsMember s x → ¬ Conflicts x → IsMember t x
      exact : IsMember s (server node_id addr) → IsMember t (server node_id addr)
      within : (x : Server) → In x rest → IsMember s x

    Conflicts-cases :
        (x : Server)
        → (Conflicts x × ((text_eq x.id node_id || text_eq x.address addr) ≡ true))
          ⊎ ((¬ Conflicts x) × ((text_eq x.id node_id || text_eq x.address addr) ≡ false))
    Conflicts-cases x = elim (Bool-cases (text_eq x.id node_id)) [
      | inl same ↦ inl (inl (eq_of_text_eq x.id node_id same), rw same refl)
      | inr differs ↦ elim (Bool-cases (text_eq x.address addr)) [
        | inl same ↦ inl (inr (eq_of_text_eq x.address addr same), rw (differs, same) refl)
        | inr differs' ↦ inr (apart x differs differs', rw (differs, differs') refl)
      ]
    ]
      where
        apart :
            (x : Server)
            → text_eq x.id node_id ≡ false
            → text_eq x.address addr ≡ false
            → ¬ Conflicts x
        apart x d d' (inl e) = let t = text_eq_refl node_id in cc (rw e at d)
        apart x d d' (inr e) = let t = text_eq_refl addr in cc (rw e at d')

    exactly :
        (x : Server)
        → ((x ≡ server node_id addr) × ((text_eq x.address addr && text_eq x.id node_id) ≡ true))
          ⊎ ((x ≢ server node_id addr) × ((text_eq x.address addr && text_eq x.id node_id) ≡ false))
    exactly x = elim (Bool-cases (text_eq x.address addr)) [
      | inl a ↦ elim (Bool-cases (text_eq x.id node_id)) [
        | inl i ↦ inl (
          λ j. record {
            id = eq_of_text_eq x.id node_id i j;
            address = eq_of_text_eq x.address addr a j;
          },
          rw (a, i) refl,
        )
        | inr i ↦ inr ((λ e. let t = text_eq_refl node_id in cc), rw (a, i) refl)
      ]
      | inr a ↦ inr ((λ e. let t = text_eq_refl addr in cc (rw e at a)), rw a refl)
    ]

    module _ (laws : IsLawful R IsMember) (unique : IsUnique s) where
      Looped-skip :
          (t : R.State) (y : Server) (rest : List Server)
          → ¬ Conflicts y
          → Looped t (y ∷ rest)
          → Looped t rest
      unfolding In
      Looped-skip t y rest clear v = record {
        from = λ x m.
            let (old, left) = v.from x m in
            (
              old,
              λ c. elim (left c) [
                | inl same ↦ absurd (clear (let h : x ≡ y = same in rw h at c))
                | inr later ↦ later
              ],
            );
        other = v.other;
        exact = v.exact;
        within = λ x h. v.within x (inr h);
      }

      Looped-removed :
          (t t' : R.State) (y : Server) (rest : List Server)
          → Conflicts y
          → y ≢ server node_id addr
          → R.remove_server t y.id ≡ ok t'
          → Looped t (y ∷ rest)
          → Looped t' rest
      unfolding In
      Looped-removed t t' y rest conflict different e v =
          let old_y = v.within y (inl refl) in
          record {
            from = λ x m.
                let (m', ne) = laws.removed t t' y.id x e m in
                let (old, left) = v.from x m' in
                (
                  old,
                  λ c. elim (left c) [
                    | inl same ↦ absurd (ne (ap (λ (z : Server). z.id) same))
                    | inr later ↦ later
                  ],
                );
            other = λ x old clear. laws.kept t t' y.id x e (v.other x old clear) λ same.
                let h : y ≡ x = sym (unique.by_id x y old old_y same) in clear (rw h at conflict);
            exact = λ old.
                laws.kept t t' y.id (server node_id addr) e (v.exact old)
                  λ same. different (sym (unique.by_id (server node_id addr) y old old_y same));
            within = λ x h. v.within x (inr h);
          }

      Looped-done : (t t' : R.State) → Looped t [] → R.add_voter t node_id addr ≡ ok t' → Joined t'
      unfolding In
      Looped-done t t' v e = record {
        present = laws.added t t' node_id addr e;
        only = λ x m. elim (laws.added_only t t' node_id addr x e m) [
          | inl same ↦ inl same
          | inr m' ↦ inr (v.from x m')
        ];
        others = λ x old clear.
            laws.added_kept t t' node_id addr x e (v.other x old clear) λ same. clear (inl same);
      }

      Looped-found :
          (t : R.State) (y : Server) (rest : List Server)
          → y ≡ server node_id addr
          → Looped t (y ∷ rest)
          → Joined t
      unfolding In
      Looped-found t y rest same v =
          let me = server node_id addr in
          let old_me : IsMember s me = v.within me (inl (sym same)) in
          record {
            present = v.exact old_me;
            only = λ x m. elim (Conflicts-cases x) [
              | inl (inl id, _) ↦ inl (unique.by_id x me (v.from x m).0 old_me id)
              | inl (inr address, _) ↦ inl (unique.by_address x me (v.from x m).0 old_me address)
              | inr (clear, _) ↦ inr ((v.from x m).0, clear)
            ];
            others = v.other;
          }

      join_loop-Joined :
          (t t' : R.State) (rest : List Server)
          → Looped t rest
          → join_loop R t rest node_id addr ≡ ok t'
          → Joined t'
      unfolding join_loop
      join_loop-Joined t t' [] v e = Looped-done t t' v e
      join_loop-Joined t t' (y ∷ rest) v e = elim (Conflicts-cases y) [
        | inr (clear, test) ↦
            join_loop-Joined t t' rest (Looped-skip t y rest clear v) (rw (test, join_loop) at e)
        | inl (conflict, test) ↦
            let e1 = rw (test, join_loop) at e in
            elim (exactly y) [
              | inl (same, test') ↦
                  let h : t ≡ t' = cc (rw test' at e1) in rw (← h) (Looped-found t y rest same v)
              | inr (different, test') ↦
                  let e2 = rw test' at e1 in
                  elim (Result-cases (R.remove_server t y.id)) [
                    | inr (x, failed) ↦ cc (rw failed at e2)
                    | inl (t1, removed) ↦
                        join_loop-Joined t1 t' rest
                          (Looped-removed t t1 y rest conflict different removed v)
                          (rw removed at e2)
                  ]
            ]
      ]

      -- After Join, the node is a member under its id and address; every member before that has neither
      -- its id nor its address still is one; and nobody else is. The members had different ids and
      -- addresses before, and hashicorp/raft changes the members as documented.
      pub join-Joined : (s' : R.State) → join R s node_id addr ≡ ok s' → Joined s'
      unfolding join
      join-Joined s' e = elim (Result-cases (R.servers s)) [
        | inr (x, failed) ↦ cc (rw (failed, join) at e)
        | inl (l, listed) ↦
            join_loop-Joined s s' l
              (record {
                from = λ x m. (m, λ c. laws.complete s l x listed m);
                other = λ x m c. m;
                exact = λ m. m;
                within = λ x h. laws.listed s l x listed h;
              })
              (rw (listed, join) at e)
      ]
