-- ===== src/Nptp/Xml/Configured.antt =====
-- application/nptp_xml.c: the invariant of the table of mappings, which reading a configuration keeps.
use libcomm.Prelude.{
  ℕ, ◌≤◌, ◌<◌, ◌≡◌, ◌≢◌, inl, inr, refl, sym, ap, subst, ◌∙◌, arith, ℤ, pos, is_zero, Bool-cases,
  true, false, ◌&&◌, not, List, Option, some, get_or-set_self, get_or-set_ne, length, length-set,
  ltb,
}
use native.Mathlib.Decide.{ℕ_discrete}
use libcomm.Os.{World, Os, malloc}
use libcomm.Memory.{is_live, FreshBlocks}
use libcomm.Returns.{Returns, Returns-bind, Returns-mono}
use libcomm.Nptp.{State, slot, max_mapping_num}
use libcomm.Nptp.Xml.{
  Node, Nodes, nil, cons, attributes_of, children_of, is_tag, tag_mapping, att_enable,
  get_attribute, add_mapping, parse_node, parse_tag_mapping, xml_init,
}
use libcomm.Nptp.Xml.Table.{New, Added, IsReadable, add_mapping-Added}

-- The first `mapping_num` slots hold different allocated mappings, each with its index, and the others
-- are NULL.
pub record IsConfigured (w : World State) : Type 0 where
  pub width : length w.store.p_mapping ≡ max_mapping_num
  pub bounded : w.store.mapping_num ≤ max_mapping_num
  pub past : (i : ℕ) → w.store.mapping_num ≤ i → slot w.store i ≡ 0
  pub some_block : (i : ℕ) → i < w.store.mapping_num → slot w.store i ≢ 0
  pub live : (i : ℕ) → i < w.store.mapping_num → is_live w.history (slot w.store i) ≡ true
  pub new : (i : ℕ) → i < w.store.mapping_num → New i (w.store.mappings (slot w.store i))

-- No mapping stands in two slots: its index would be both.
pub distinct_slots :
    (w : World State) (i j : ℕ)
    → IsConfigured w
    → i < w.store.mapping_num
    → j < w.store.mapping_num
    → slot w.store i ≡ slot w.store j
    → i ≡ j
distinct_slots w i j v h k e =
    sym (v.new i h).0 ∙ (ap (λ q. (w.store.mappings q).index) e ∙ (v.new j k).0)

Added-IsConfigured :
    (q : ℕ) (w w' : World State)
    → IsConfigured w
    → w.store.mapping_num < max_mapping_num
    → Added q w w'
    → IsConfigured w'
Added-IsConfigured q w w' v room a = record {
  width = rw a.table (length-set w.store.p_mapping w.store.mapping_num q ∙ v.width);
  bounded = omega (arith, a.number, room);
  past = λ i h. old i (λ e. omega (arith, a.number, h, e)) ∙ v.past i (omega (arith, a.number, h));
  some_block = λ i h. elim (ℕ_discrete w.store.mapping_num i) [
    | yes e ↦ λ z. a.some_block (sym (subst (λ k. slot w'.store k ≡ q) e here) ∙ z)
    | no ne ↦ λ z. v.some_block i (below i h ne) (sym (old i ne) ∙ z)
  ];
  live = λ i h. elim (ℕ_discrete w.store.mapping_num i) [
    | yes e ↦ rw (subst (λ k. slot w'.store k ≡ q) e here) a.live
    | no ne ↦ rw (old i ne) (a.lives (slot w.store i) (apart i h ne) ∙ v.live i (below i h ne))
  ];
  new = λ i h. elim (ℕ_discrete w.store.mapping_num i) [
    | yes e ↦
        rw (subst (λ k. slot w'.store k ≡ q) e here)
          (subst (λ k. New k (w'.store.mappings q)) e a.new)
    | no ne ↦ rw (old i ne, a.others (slot w.store i) (apart i h ne)) (v.new i (below i h ne))
  ];
}
  where
    here : slot w'.store w.store.mapping_num ≡ q
    here =
        rw a.table
          (get_or-set_self w.store.p_mapping w.store.mapping_num q 0 (omega (arith, v.width, room)))

    old : (i : ℕ) → w.store.mapping_num ≢ i → slot w'.store i ≡ slot w.store i
    old i ne = rw a.table (get_or-set_ne w.store.p_mapping w.store.mapping_num i q 0 ne)

    below : (i : ℕ) → i < w'.store.mapping_num → w.store.mapping_num ≢ i → i < w.store.mapping_num
    below i h ne = omega (arith, a.number, h, ne)

    apart : (i : ℕ) → i < w'.store.mapping_num → w.store.mapping_num ≢ i → slot w.store i ≢ q
    apart i h ne e =
        ground (arith, v.live i (below i h ne), ap (λ r. is_live w.history r) e, a.fresh)

module _ (os : Os) (content : Node → Option (List ℕ)) (atoi : List ℕ → ℤ) where
  -- A MAPPING tag says whether it is enabled, and if so its children are readable.
  abbrev pub IsWellFormed : Node → Type 0
  IsWellFormed n =
      is_tag tag_mapping n ≡ true
      → (v : List ℕ) × (get_attribute (attributes_of n) att_enable ≡ some v)
        × (is_zero (atoi v) ≡ false → IsReadable os content atoi (children_of n))

  abbrev pub AreWellFormed : Nodes → Type 0
  AreWellFormed nil = Unit {0}
  AreWellFormed (cons n rest) = IsWellFormed n × AreWellFormed rest

  module _ (blocks : FreshBlocks os) (granted : (h : _) → (os.reply h malloc).pointer ≢ 0) where
    parse_node-IsConfigured :
        (n : Node) (w : World State)
        → IsWellFormed n
        → IsConfigured w
        → Returns (parse_node os content atoi n w) (λ _. IsConfigured)
    unfolding parse_node
    parse_node-IsConfigured n w f v = elim (Bool-cases (is_tag tag_mapping n)) [
      | inr e ↦ rw (e, Returns) v
      | inl e ↦
          let (t, found, readable) = f e in
          elim (Bool-cases (not (is_zero (atoi t)) && ltb w.store.mapping_num max_mapping_num)) [
            | inr e' ↦ rw (e, found, e', Returns) v
            | inl e' ↦
                rw (e, found, e')
                  (Returns-mono (add_mapping os content atoi (children_of n) w) _
                    (λ _. IsConfigured)
                    (add_mapping-Added os content atoi blocks granted (children_of n) w
                      (readable (ground (arith, e'))))
                    (λ _ w' (q, a). Added-IsConfigured q w w' v (ground (arith, e')) a))
          ]
    ]

    parse_tag_mapping-IsConfigured :
        (nodes : Nodes) (w : World State)
        → AreWellFormed nodes
        → IsConfigured w
        → Returns (parse_tag_mapping os content atoi nodes w) (λ _. IsConfigured)
    unfolding parse_tag_mapping
    parse_tag_mapping-IsConfigured nil w f v = v
    parse_tag_mapping-IsConfigured (cons n rest) w (f, fs) v =
        Returns-bind (parse_node os content atoi n) _ w (λ _. IsConfigured) _
          (parse_node-IsConfigured n w f v)
          (λ _ w' v'. parse_tag_mapping-IsConfigured rest w' fs v')

    -- Take a configuration in which each MAPPING tag says whether it is enabled and, if so, the
    -- first PORT, PIPE and DESC tags in it have a content and the text of its pipe has less than
    -- 160 characters and less than 80 after its last slash. If malloc never fails and gives fresh
    -- blocks, xml_init meets no fault, gives 0 and keeps the table of mappings well-formed: it
    -- has 64 slots; those below g_mappingNum hold allocated mappings whose index is their slot,
    -- which have no watch, no server and no client; and those from it on are NULL.
    pub xml_init-IsConfigured :
        (root : Node) (w : World State)
        → AreWellFormed (children_of root)
        → IsConfigured w
        → Returns
            (xml_init os content atoi (some (some root)) w)
            (λ e w'. (e ≡ pos 0) × IsConfigured w')
    unfolding xml_init
    xml_init-IsConfigured root w f v =
        Returns-bind (parse_tag_mapping os content atoi (children_of root)) _ w (λ _. IsConfigured)
          _ (parse_tag_mapping-IsConfigured (children_of root) w f v) (λ _ w' v'. (refl, v'))
