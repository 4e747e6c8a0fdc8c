-- ===== src/Nptp/Xml/Edits.antt =====
-- application/nptp_xml.c: what reading the tags of a mapping changes.
use libcomm.Prelude.{
  ℕ, suc, ◌<◌, ◌≡◌, ◌≢◌, inl, inr, refl, ◌∙◌, arith, ℤ, Bool-cases, Option-cases, true, List, ◌∷◌,
  Option, none, some, drop, length, leb, ltb, lt→ltb, ◌==◌,
}
use libcomm.Os.{World, Os, getcwd}
use libcomm.Memory.{is_live, update}
use libcomm.Returns.{Returns, Returns-bind}
use libcomm.Nptp.{Mapping, State, pipe_path_size, pipe_name_size}
use libcomm.Nptp.Xml.{
  Node, Nodes, tag_port, tag_pipe, tag_desc, find_tag, remove_space, last_slash,
  decompose_path_name, parse_tag_port, parse_tag_pipe, parse_tag_desc,
}

-- Nothing but fields of the mapping at `q` that are read from the configuration has changed.
pub record Edited (q : ℕ) (w w' : World State) : Type 0 where
  pub live : (r : ℕ) → is_live w'.history r ≡ is_live w.history r
  pub table : w'.store.p_mapping ≡ w.store.p_mapping
  pub number : w'.store.mapping_num ≡ w.store.mapping_num
  pub others : (r : ℕ) → r ≢ q → w'.store.mappings r ≡ w.store.mappings r
  pub server : (w'.store.mappings q).tcp_server_handle ≡ (w.store.mappings q).tcp_server_handle
  pub client : (w'.store.mappings q).ipc_stream_handle ≡ (w.store.mappings q).ipc_stream_handle

pub Edited-refl : (q : ℕ) (w : World State) → Edited q w w
Edited-refl q w = record {
  live = λ r. refl;
  table = refl;
  number = refl;
  others = λ r h. refl;
  server = refl;
  client = refl;
}

pub Edited-trans : {q : ℕ} {w w1 w2 : World State} → Edited q w w1 → Edited q w1 w2 → Edited q w w2
Edited-trans e f = record {
  live = λ r. f.live r ∙ e.live r;
  table = f.table ∙ e.table;
  number = f.number ∙ e.number;
  others = λ r h. f.others r h ∙ e.others r h;
  server = f.server ∙ e.server;
  client = f.client ∙ e.client;
}

pub write-Edited :
    (q : ℕ) (m : Mapping) (w : World State)
    → m.tcp_server_handle ≡ (w.store.mappings q).tcp_server_handle
    → m.ipc_stream_handle ≡ (w.store.mappings q).ipc_stream_handle
    → Edited q w (record w { store = record w.store { mappings = update w.store.mappings q m } })
write-Edited q m w e f = record {
  live = λ r. refl;
  table = refl;
  number = refl;
  others = λ r h. ground arith;
  server = ground (arith, e);
  client = ground (arith, f);
}

-- A text that `decomposePathName` takes apart within its two arrays.
abbrev pub Fits : List ℕ → Type 0
Fits s =
    (length s < pipe_path_size)
    × ((i : ℕ) → last_slash 0 s none ≡ some i → length (drop (suc i) s) < pipe_name_size)

module _ (os : Os) (content : Node → Option (List ℕ)) (atoi : List ℕ → ℤ) where
  -- The first child with the tag, if there is one, has a content, and a path that fits.
  abbrev pub HasText : List ℕ → Nodes → Type 0
  HasText tag children =
      (n : Node) → find_tag tag children ≡ some n → (s : List ℕ) × (content n ≡ some s)

  abbrev pub HasPath : Nodes → Type 0
  HasPath children =
      (n : Node)
      → find_tag tag_pipe children ≡ some n
      → (s : List ℕ) × (content n ≡ some s) × Fits (remove_space s)

  pub parse_tag_port-Edited :
      (children : Nodes) (q : ℕ) (w : World State)
      → HasText tag_port children
      → is_live w.history q ≡ true
      → Returns (parse_tag_port os content atoi children q w) (λ _. Edited q w)
  unfolding parse_tag_port
  parse_tag_port-Edited children q w text live = elim (Option-cases (find_tag tag_port children)) [
    | inl e ↦ rw (e, Returns) (Edited-refl q w)
    | inr (n, e) ↦ let (s, c) = text n e in rw (e, Returns, c, live) (write-Edited q _ w refl refl)
  ]

  pub parse_tag_desc-Edited :
      (children : Nodes) (q : ℕ) (w : World State)
      → HasText tag_desc children
      → is_live w.history q ≡ true
      → Returns (parse_tag_desc os content atoi children q w) (λ _. Edited q w)
  unfolding parse_tag_desc
  parse_tag_desc-Edited children q w text live = elim (Option-cases (find_tag tag_desc children)) [
    | inl e ↦ rw (e, Returns) (Edited-refl q w)
    | inr (n, e) ↦ let (s, c) = text n e in rw (e, Returns, c, live) (write-Edited q _ w refl refl)
  ]

  decompose_path_name-Edited :
      (s : List ℕ) (q : ℕ) (w : World State)
      → Fits s
      → Returns (decompose_path_name os s w) (λ _. Edited q w)
  unfolding decompose_path_name
  decompose_path_name-Edited s q w (fits, short) =
      rw room (elim (Option-cases (last_slash 0 s none)) [
        | inr (i, e) ↦
            let small : ltb (length (drop (suc i) s)) pipe_name_size ≡ true =
              lt→ltb _ _ (short i e) in
            rw (e, small, Returns) (Edited-refl q w)
        | inl e ↦ elim (Bool-cases ((os.reply w.history (getcwd 159)).pointer == 0)) [
          | inl none_given ↦ rw (e, none_given, lt→ltb _ _ fits, Returns) asked
          | inr given ↦ rw (e, given, Returns) asked
        ]
      ])
    where
      room : leb (length s) pipe_path_size ≡ true
      room = ground (arith, fits)

      asked :
          Edited q w
            (record w { history = (getcwd 159, os.reply w.history (getcwd 159)) ∷ w.history })
      asked = record {
        live = λ r. refl;
        table = refl;
        number = refl;
        others = λ r h. refl;
        server = refl;
        client = refl;
      }

  pub parse_tag_pipe-Edited :
      (children : Nodes) (q : ℕ) (w : World State)
      → HasPath children
      → is_live w.history q ≡ true
      → Returns (parse_tag_pipe os content atoi children q w) (λ _. Edited q w)
  unfolding parse_tag_pipe
  parse_tag_pipe-Edited children q w path live = elim (Option-cases (find_tag tag_pipe children)) [
    | inl e ↦ rw (e, Returns) (Edited-refl q w)
    | inr (n, e) ↦
        let (s, c, fits) = path n e in
        rw (e, parse_tag_pipe, c)
          (Returns-bind (decompose_path_name os (remove_space s)) _ w (λ _. Edited q w)
            (λ _. Edited q w) (decompose_path_name-Edited (remove_space s) q w fits)
            (λ (path, name) w1 d.
              rw (d.live q ∙ live, Returns) (Edited-trans d (write-Edited q _ w1 refl refl))))
  ]
