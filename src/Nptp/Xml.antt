-- ===== src/Nptp/Xml.antt =====
-- application/nptp_xml.c: the table of mappings is read from a configuration file. libxml2 reads the
-- file: its tree is the input, and what `xmlNodeGetContent` and `atoi` make of a node and of a
-- text are arguments.
pub mod Path
pub mod Edits
pub mod Table
pub mod Configured
use libcomm.Prelude.{
  ℕ, suc, ◌-◌, ◌%◌, ◌^◌, ℤ, pos, negsuc, minus_one, is_zero, Bool, false, ◌&&◌, ◌||◌, not, List, [],
  ◌∷◌, Option, none, some, take, drop, set, length, ltb, leb, ◌==◌, if◌then◌else◌,
}
use libcomm.Os.{Os, pure, fault, skip, ◌>>=◌, ◌>>◌, when, call, malloc, getcwd}
use libcomm.Udp.Address.{same_text}
use libcomm.Nptp.{
  Mapping, Act, modify, globals, set_globals, max_mapping_num, pipe_path_size, pipe_name_size,
}

-- `xmlAttr`: its name and the content of its first child, if it has one with a content.
pub record Attribute : Type 0 where
  pub name : List ℕ
  pub value : Option (List ℕ)

-- `xmlNode`: whether its type is XML_ELEMENT_NODE, its name, its attributes and its children.
mutual
  pub data Node : Type 0 where
    node : Bool → List ℕ → List Attribute → Nodes → Node

  pub data Nodes : Type 0 where
    nil : Nodes
    cons : Node → Nodes → Nodes

abbrev pub is_tag : List ℕ → Node → Bool
is_tag tag (node element name attributes children) = element && same_text name tag

abbrev pub children_of : Node → Nodes
children_of (node element name attributes children) = children

abbrev pub attributes_of : Node → List Attribute
attributes_of (node element name attributes children) = attributes

-- "MAPPING", "PORT", "PIPE", "DESC" and "enable".
abbrev pub tag_mapping : List ℕ
tag_mapping = b'M' ∷ b'A' ∷ b'P' ∷ b'P' ∷ b'I' ∷ b'N' ∷ b'G' ∷ []

abbrev pub tag_port : List ℕ
tag_port = b'P' ∷ b'O' ∷ b'R' ∷ b'T' ∷ []

abbrev pub tag_pipe : List ℕ
tag_pipe = b'P' ∷ b'I' ∷ b'P' ∷ b'E' ∷ []

abbrev pub tag_desc : List ℕ
tag_desc = b'D' ∷ b'E' ∷ b'S' ∷ b'C' ∷ []

abbrev pub att_enable : List ℕ
att_enable = b'e' ∷ b'n' ∷ b'a' ∷ b'b' ∷ b'l' ∷ b'e' ∷ []

-- The first loop of `removeSpace`, and the second.
unfoldable pub skip_blank : List ℕ → List ℕ
skip_blank [] = []
skip_blank (c ∷ s) = if (c == 0x0A) || (c == 0x0D) || (c == 0x20) then skip_blank s else c ∷ s

unfoldable pub cut_line : List ℕ → List ℕ
cut_line [] = []
cut_line (c ∷ s) = if (c == 0x0A) || (c == 0x0D) then [] else c ∷ cut_line s

abbrev pub remove_space : List ℕ → List ℕ
remove_space s = cut_line (skip_blank s)

-- The loop of `decomposePathName`, from index `i` on: where the last '/' is.
unfoldable pub last_slash : ℕ → List ℕ → Option ℕ → Option ℕ
last_slash i [] target = target
last_slash i (c ∷ s) target = last_slash (suc i) s (if c == b'/' then some i else target)

-- A conversion to `unsigned short`.
abbrev pub unsigned_short : ℤ → ℕ
unsigned_short (pos n) = n % 2 ^ 16
unsigned_short (negsuc n) = 2 ^ 16 - 1 - n % 2 ^ 16

-- The content of the attribute, or NULL.
unfoldable pub get_attribute : List Attribute → List ℕ → Option (List ℕ)
get_attribute [] name = none
get_attribute (a ∷ rest) name = if same_text a.name name then a.value else get_attribute rest name

-- The first child that is an element with the tag.
unfoldable pub find_tag : List ℕ → Nodes → Option Node
find_tag tag nil = none
find_tag tag (cons n rest) = if is_tag tag n then some n else find_tag tag rest

-- `memset` to zero.
abbrev pub new_mapping : Mapping
new_mapping = record {
  tcp_server_handle = 0;
  ipc_stream_handle = 0;
  tcp_connect = false;
  pipe_connect = false;
  tcp_port = 0;
  pipe_path = [];
  pipe_name = [];
  descript = [];
  wd = pos 0;
  p_tcp_user = 0;
  index = 0;
}

module _ (os : Os) where
  -- What is left in `pPath` and in `pName`. A write past the end of either is a fault. Where
  -- there is no '/' and getcwd fails, `pPath` keeps the copy, with no terminator if it is full.
  unfoldable pub decompose_path_name : List ℕ → Act (List ℕ × List ℕ)
  unfolding last_slash
  decompose_path_name s =
      if leb (length s) pipe_path_size
      then elim (last_slash 0 s none) [
        | some target ↦
            if ltb (length (drop (suc target) s)) pipe_name_size
            then pure (take target s, drop (suc target) s)
            else fault
        | none ↦ (do
          r ← call os (getcwd 159)
          if r.pointer == 0
              then (if ltb (length s) pipe_path_size then pure (s, take 79 s) else fault)
              else pure (r.payload, take 79 s))
      ]
      else fault

module _ (os : Os) (content : Node → Option (List ℕ)) (atoi : List ℕ → ℤ) where
  unfoldable pub parse_tag_port : Nodes → ℕ → Act (Unit {0})
  parse_tag_port children q = elim (find_tag tag_port children) [
    | none ↦ skip
    | some n ↦ elim (content n) [
      | none ↦ fault
      | some s ↦ modify q (λ m. record m { tcp_port = unsigned_short (atoi s) })
    ]
  ]

  unfoldable pub parse_tag_pipe : Nodes → ℕ → Act (Unit {0})
  parse_tag_pipe children q = elim (find_tag tag_pipe children) [
    | none ↦ skip
    | some n ↦ elim (content n) [
      | none ↦ fault
      | some s ↦ (do
        (path, name) ← decompose_path_name os (remove_space s)
        modify q (λ m. record m { pipe_path = path; pipe_name = name }))
    ]
  ]

  unfoldable pub parse_tag_desc : Nodes → ℕ → Act (Unit {0})
  parse_tag_desc children q = elim (find_tag tag_desc children) [
    | none ↦ skip
    | some n ↦ elim (content n) [
      | none ↦ fault
      | some s ↦ modify q (λ m. record m { descript = take 79 (remove_space s) })
    ]
  ]

  -- The mapping of one enabled tag: NULL is written to if malloc fails.
  unfoldable pub add_mapping : Nodes → Act (Unit {0})
  add_mapping children = do
    r ← call os malloc
    if r.pointer == 0 then fault else (do
      let q = r.pointer
      modify q (λ _. new_mapping)
      parse_tag_port children q
      parse_tag_pipe children q
      parse_tag_desc children q
      g ← globals
      modify q (λ m. record m { wd = minus_one; index = g.mapping_num })
      set_globals (λ s. record s {
        p_mapping = set s.p_mapping s.mapping_num q;
        mapping_num = suc s.mapping_num;
      }))

  -- One round of the loop. `atoi` of NULL is a fault.
  unfoldable pub parse_node : Node → Act (Unit {0})
  parse_node n =
      if is_tag tag_mapping n
      then elim (get_attribute (attributes_of n) att_enable) [
        | none ↦ fault
        | some v ↦ (do
          g ← globals
          when (not (is_zero (atoi v)) && ltb g.mapping_num max_mapping_num)
              (add_mapping (children_of n)))
      ]
      else skip

  unfoldable pub parse_tag_mapping : Nodes → Act (Unit {0})
  parse_tag_mapping nil = skip
  parse_tag_mapping (cons n rest) = do parse_node n; parse_tag_mapping rest

  -- What `xmlReadFile` gives: NULL, or a document with or without a root.
  unfoldable pub xml_init : Option (Option Node) → Act ℤ
  xml_init none = pure (pos 0)
  xml_init (some none) = pure minus_one
  xml_init (some (some root)) = do parse_tag_mapping (children_of root); pure (pos 0)
