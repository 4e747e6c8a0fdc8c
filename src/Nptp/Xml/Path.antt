-- ===== src/Nptp/Xml/Path.antt =====
-- application/nptp_xml.c: the path and the name that a configured pipe is taken apart into.
use libcomm.Prelude.{
  ℕ, suc, ◌+◌, ◌≤◌, ◌<◌, ◌≡◌, ◌≢◌, ◌⊎◌, inl, inr, refl, ap, arith, true, List, [], ◌∷◌, ◌++◌,
  Option, none, some, ℤ, drop, length, take-append, leb, ltb, ◌==◌, if◌then◌else◌,
}
use libcomm.Os.{World, Os}
use libcomm.Nptp.{State, pipe_path_size, pipe_name_size}
use libcomm.Nptp.Proxy.{server_path}
use libcomm.Memory.{is_live, update, update_self}
use libcomm.Returns.{Returns}
use libcomm.Nptp.Xml.{
  Node, Nodes, find_tag, tag_pipe, parse_tag_pipe, skip_blank, cut_line, remove_space, last_slash,
  decompose_path_name,
}

-- No character of the text is `c`.
abbrev pub Without : ℕ → List ℕ → Type 0
Without c [] = Unit {0}
Without c (x ∷ s) = (x ≢ c) × Without c s

-- Line feeds, carriage returns and blanks.
abbrev pub AreBlank : List ℕ → Type 0
AreBlank [] = Unit {0}
AreBlank (c ∷ s) = ((c ≡ 0x0A) ⊎ (c ≡ 0x0D) ⊎ (c ≡ 0x20)) × AreBlank s

last_slash-Without : (i : ℕ) (s : List ℕ) (t : Option ℕ) → Without b'/' s → last_slash i s t ≡ t
unfolding last_slash
last_slash-Without i [] t h = refl
last_slash-Without i (c ∷ s) t h = ground (arith, last_slash-Without (suc i) s t h.1, h.0)

last_slash-append :
    (i : ℕ) (path name : List ℕ) (t : Option ℕ)
    → Without b'/' name
    → last_slash i (path ++ b'/' ∷ name) t ≡ some (i + length path)
unfolding last_slash
last_slash-append i [] name t h = ground (arith, last_slash-Without (suc i) name (some i) h)
last_slash-append i (c ∷ path) name t h =
    let e : suc i + length path ≡ i + suc (length path) = omega arith in
    rw (last_slash-append (suc i) path name (if c == b'/' then some i else t) h, e) refl

drop-append_left : (xs ys : List ℕ) (y : ℕ) → drop (suc (length xs)) (xs ++ y ∷ ys) ≡ ys
drop-append_left [] ys y = refl
drop-append_left (x ∷ xs) ys y = drop-append_left xs ys y

-- A pipe's path is taken apart at its last '/'.
pub decompose_path_name-append :
    (os : Os) (path name : List ℕ) (w : World State)
    → Without b'/' name
    → length (path ++ b'/' ∷ name) ≤ pipe_path_size
    → length name < pipe_name_size
    → decompose_path_name os (path ++ b'/' ∷ name) w ≡ some ((path, name), w)
unfolding decompose_path_name
decompose_path_name-append os path name w h fits short =
    let e : 0 + length path ≡ length path = omega arith in
    let room : leb (length (path ++ b'/' ∷ name)) pipe_path_size ≡ true = ground arith in
    let room' : ltb (length name) pipe_name_size ≡ true = ground arith in
    rw
      (
        room,
        last_slash-append 0 path name none h,
        e,
        drop-append_left path name b'/',
        take-append path (b'/' ∷ name),
        room',
      )
      refl

skip_blank-append : (blanks s : List ℕ) → AreBlank blanks → skip_blank (blanks ++ s) ≡ skip_blank s
unfolding skip_blank
skip_blank-append [] s h = refl
skip_blank-append (c ∷ blanks) s (inl e, h) = ground (arith, e, skip_blank-append blanks s h)
skip_blank-append (c ∷ blanks) s (inr (inl e), h) = ground (arith, e, skip_blank-append blanks s h)
skip_blank-append (c ∷ blanks) s (inr (inr e), h) = ground (arith, e, skip_blank-append blanks s h)

-- What a line holds up to its end.
abbrev pub IsEnd : List ℕ → Type 0
IsEnd [] = Unit {0}
IsEnd (c ∷ s) = (c ≡ 0x0A) ⊎ (c ≡ 0x0D)

cut_line-append :
    (s rest : List ℕ) → Without 0x0A s → Without 0x0D s → IsEnd rest → cut_line (s ++ rest) ≡ s
unfolding cut_line
cut_line-append [] [] h k e = refl
cut_line-append [] (c ∷ rest) h k (inl e) = ground (arith, e)
cut_line-append [] (c ∷ rest) h k (inr e) = ground (arith, e)
cut_line-append (c ∷ s) rest h k e = ground (arith, h.0, k.0, cut_line-append s rest h.1 k.1 e)

-- The text does not start with a blank.
abbrev pub StartsText : List ℕ → Type 0
StartsText [] = Unit {0}
StartsText (c ∷ s) = (c ≢ 0x0A) × (c ≢ 0x0D) × (c ≢ 0x20)

skip_blank-StartsText : (s : List ℕ) → StartsText s → skip_blank s ≡ s
unfolding skip_blank
skip_blank-StartsText [] h = refl
skip_blank-StartsText (c ∷ s) h = ground arith

-- How a pipe is written in the configuration: blanks, a path, a name, and the end of the line.
pub record IsWritten (blanks path name rest : List ℕ) : Type 0 where
  pub blank : AreBlank blanks
  pub starts : StartsText (path ++ b'/' ∷ name)
  pub no_line_feed : Without 0x0A (path ++ b'/' ∷ name)
  pub no_return : Without 0x0D (path ++ b'/' ∷ name)
  pub ends : IsEnd rest
  pub last_part : Without b'/' name
  pub fits : length (path ++ b'/' ∷ name) ≤ pipe_path_size
  pub short : length name < pipe_name_size

StartsText-append :
    (path name rest : List ℕ)
    → StartsText (path ++ b'/' ∷ name)
    → StartsText ((path ++ b'/' ∷ name) ++ rest)
StartsText-append [] name rest h = h
StartsText-append (c ∷ path) name rest h = h

remove_space_lem :
    (blanks path name rest : List ℕ)
    → IsWritten blanks path name rest
    → remove_space (blanks ++ ((path ++ b'/' ∷ name) ++ rest)) ≡ path ++ b'/' ∷ name
remove_space_lem blanks path name rest v =
    rw
      (
        skip_blank-append blanks ((path ++ b'/' ∷ name) ++ rest) v.blank,
        skip_blank-StartsText ((path ++ b'/' ∷ name) ++ rest)
            (StartsText-append path name rest v.starts),
      )
      (cut_line-append (path ++ b'/' ∷ name) rest v.no_line_feed v.no_return v.ends)

-- The memory with another path and another name in the mapping at `q`, and nothing else changed.
abbrev pub named : ℕ → List ℕ → List ℕ → World State → World State
named q path name w = record w {
  store = record w.store {
    mappings =
        update w.store.mappings q
          (record (w.store.mappings q) { pipe_path = path; pipe_name = name });
  };
}

module _ (os : Os) (content : Node → Option (List ℕ)) (atoi : List ℕ → ℤ) where
  -- Let the first PIPE tag of a mapping have as its content blanks and line ends, then a path, a
  -- slash and a name without a slash, and then nothing or the end of the line and any rest, where
  -- the path, the slash and the name do not start with a blank, have no line end in them and at
  -- most 160 characters, and the name less than 80. Then parsing the tag meets no fault, and the
  -- path that the proxy connects the mapping to is the path, the slash and the name. It changes
  -- nothing in the memory of the proxy but the path and the name of the mapping, which is
  -- allocated, and makes no call.
  pub parse_tag_pipe-server_path :
      (children : Nodes) (n : Node) (q : ℕ) (blanks path name rest : List ℕ) (w : World State)
      → is_live w.history q ≡ true
      → find_tag tag_pipe children ≡ some n
      → content n ≡ some (blanks ++ ((path ++ b'/' ∷ name) ++ rest))
      → IsWritten blanks path name rest
      → Returns (parse_tag_pipe os content atoi children q w) (λ _ w'.
        (server_path (w'.store.mappings q) ≡ path ++ b'/' ∷ name) × (w' ≡ named q path name w))
  unfolding parse_tag_pipe
  parse_tag_pipe-server_path children n q blanks path name rest w live tag text v =
      rw
        (
          tag,
          text,
          remove_space_lem blanks path name rest v,
          decompose_path_name-append os path name w v.last_part v.fits v.short,
          live,
          Returns,
        )
        (ap server_path new, refl)
    where
      new :
          update w.store.mappings q
            (record (w.store.mappings q) { pipe_path = path; pipe_name = name })
            q
          ≡ record (w.store.mappings q) { pipe_path = path; pipe_name = name }
      new =
          update_self w.store.mappings q
            (record (w.store.mappings q) { pipe_path = path; pipe_name = name })
