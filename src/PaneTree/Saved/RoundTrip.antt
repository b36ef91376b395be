-- ===== src/PaneTree/Saved/RoundTrip.antt =====
-- What a saved layout is restored to.
use connect_hub.Base.{
  ℕ, ◌≡◌, refl, sym, ◌∙◌, String, List, [], ◌∷◌, ◌++◌, map, map-append, append-nil, Option, none,
  some, arith, All, All-append_left, All-append_right,
}
use connect_hub.Bridge.{Host}
use connect_hub.PaneTree.{Direction, PaneLeaf, PaneNode, collect_leaves}
use connect_hub.PaneTree.Closing.{leaves_of}
use connect_hub.PaneTree.Saved.{
  SerializedPaneNode, leaf, split, serialize_layout, restore_split, deserialize_layout,
}

abbrev pub hosts_of : {W : Type 0} → Option (PaneNode W) → List Host
hosts_of o = map (λ (l : PaneLeaf). l.host) (leaves_of o)

abbrev if_there : Option Host → List Host → List Host
if_there none hs = hs
if_there (some h) hs = h ∷ hs

-- The hosts of a list of identifiers that are still known, in order.
abbrev pub known_hosts : (String → Option Host) → List String → List Host
known_hosts hosts_by_id [] = []
known_hosts hosts_by_id (i ∷ is) = if_there (hosts_by_id i) (known_hosts hosts_by_id is)

known_hosts-append :
    (m : String → Option Host) (is js : List String)
    → known_hosts m (is ++ js) ≡ known_hosts m is ++ known_hosts m js
known_hosts-append m [] js = refl
known_hosts-append m (i ∷ is) js = ground (arith, known_hosts-append m is js)

module _ {W : Type 0} where
  unfoldable pub saved_hosts : SerializedPaneNode W → List String
  saved_hosts (leaf host_id) = host_id ∷ []
  saved_hosts (split d r a b) = saved_hosts a ++ saved_hosts b

  hosts_of-restore_split :
      (uuid : ℕ → String) (m : String → Option Host) (d : Direction) (r : W) (drawn : ℕ)
      (a b : Option (PaneNode W))
      → hosts_of (restore_split uuid m d r drawn a b).0 ≡ hosts_of a ++ hosts_of b
  unfolding restore_split collect_leaves
  hosts_of-restore_split uuid m d r drawn (some a) (some b) =
      map-append (λ (l : PaneLeaf). l.host) (collect_leaves a) (collect_leaves b)
  hosts_of-restore_split uuid m d r drawn (some a) none = sym (append-nil _)
  hosts_of-restore_split uuid m d r drawn none b = refl

  -- Restoring a saved layout shows, in their order, the hosts saved in it that are still
  -- known, and nothing where none is.
  pub hosts_of-deserialize_layout :
      (uuid : ℕ → String) (m : String → Option Host) (drawn : ℕ) (raw : SerializedPaneNode W)
      → hosts_of (deserialize_layout uuid m drawn raw).0 ≡ known_hosts m (saved_hosts raw)
  unfolding deserialize_layout saved_hosts collect_leaves
  hosts_of-deserialize_layout uuid m drawn (leaf host_id) = ground arith
  hosts_of-deserialize_layout uuid m drawn (split d r a b) =
      let left = deserialize_layout uuid m drawn a in
      hosts_of-restore_split uuid m d r _ left.0 (deserialize_layout uuid m left.1 b).0
      ∙ rw (hosts_of-deserialize_layout uuid m drawn a, hosts_of-deserialize_layout uuid m left.1 b)
          (sym (known_hosts-append m (saved_hosts a) (saved_hosts b)))

  -- While every host of a layout is still known under its identifier, saving the layout and
  -- restoring it gives a layout of the same shape, directions, ratios and hosts' identifiers.
  pub deserialize-serialize_layout :
      (uuid : ℕ → String) (m : String → Option Host) (drawn : ℕ) (t : PaneNode W)
      → All (λ (l : PaneLeaf). m l.host.id ≡ some l.host) (collect_leaves t)
      → (u : PaneNode W) × ((deserialize_layout uuid m drawn (serialize_layout t)).0 ≡ some u)
        × (serialize_layout u ≡ serialize_layout t)
  unfolding deserialize_layout serialize_layout collect_leaves
  deserialize-serialize_layout uuid m drawn (PaneNode.leaf l) (known, _) =
      (PaneNode.leaf (record { pane_id = uuid drawn; host = l.host }), rw known, refl)
  deserialize-serialize_layout uuid m drawn (PaneNode.split s d r a b) known =
      let in_a = deserialize_layout uuid m drawn (serialize_layout a) in
      let in_b = deserialize_layout uuid m in_a.1 (serialize_layout b) in
      let (a', ea, sa) =
        deserialize-serialize_layout uuid m drawn a
          (All-append_left _ (collect_leaves a) (collect_leaves b) known) in
      let (b', eb, sb) =
        deserialize-serialize_layout uuid m in_a.1 b
          (All-append_right _ (collect_leaves a) (collect_leaves b) known) in
      (PaneNode.split (uuid in_b.1) d r a' b', rw (ea, eb), rw (sa, sb))
