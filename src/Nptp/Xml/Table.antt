-- ===== src/Nptp/Xml/Table.antt =====
-- application/nptp_xml.c: the table of mappings that is read from a configuration.
use libcomm.Prelude.{
  ℕ, suc, ◌≡◌, ◌≢◌, refl, ap, ◌∙◌, arith, ℤ, minus_one, true, false, List, ◌∷◌, Option, set, ◌==◌,
}
use libcomm.Os.{World, Os, malloc}
use libcomm.Memory.{is_live, update, FreshBlocks}
use libcomm.Returns.{Returns, Returns-bind, Returns-mono, Returns-touch}
use libcomm.Nptp.{Mapping, State}
use libcomm.Nptp.Xml.{
  Node, Nodes, tag_port, tag_desc, parse_tag_port, parse_tag_pipe, parse_tag_desc, add_mapping,
  new_mapping,
}
use libcomm.Nptp.Xml.Edits.{
  Edited, Edited-trans, HasText, HasPath, parse_tag_port-Edited, parse_tag_pipe-Edited,
  parse_tag_desc-Edited,
}

-- What a new mapping at `q` is.
abbrev pub New : ℕ → Mapping → Type 0
New i m = (m.index ≡ i) × (m.wd ≡ minus_one) × (m.tcp_server_handle ≡ 0) × (m.ipc_stream_handle ≡ 0)

pub record Added (q : ℕ) (w w' : World State) : Type 0 where
  pub some_block : q ≢ 0
  pub fresh : is_live w.history q ≡ false
  pub live : is_live w'.history q ≡ true
  pub lives : (r : ℕ) → r ≢ q → is_live w'.history r ≡ is_live w.history r
  pub table : w'.store.p_mapping ≡ set w.store.p_mapping w.store.mapping_num q
  pub number : w'.store.mapping_num ≡ suc w.store.mapping_num
  pub others : (r : ℕ) → r ≢ q → w'.store.mappings r ≡ w.store.mappings r
  pub new : New w.store.mapping_num (w'.store.mappings q)

module _ (os : Os) (content : Node → Option (List ℕ)) (atoi : List ℕ → ℤ) where
  -- What the children of a tag must be for its mapping to be read without a fault.
  abbrev pub IsReadable : Nodes → Type 0
  IsReadable children =
      HasText os content atoi tag_port children
      × HasPath os content atoi children
      × HasText os content atoi tag_desc children

  module _ (blocks : FreshBlocks os) (granted : (h : _) → (os.reply h malloc).pointer ≢ 0) where
    pub add_mapping-Added :
        (children : Nodes) (w : World State)
        → IsReadable children
        → Returns (add_mapping os content atoi children w) (λ _ w'. (q : ℕ) × Added q w w')
    unfolding add_mapping
    add_mapping-Added children w (port, pipe, desc) = rw given (
        Returns-touch q (λ v. (tt, emptied v)) _ w1 _ live
          (Returns-bind (parse_tag_port os content atoi children q) _ w2 (λ _. Edited q w2) _
            (parse_tag_port-Edited os content atoi children q w2 port live)
            (λ _ w3 d.
              Returns-bind (parse_tag_pipe os content atoi children q) _ w3 (λ _. Edited q w2) _
                (Returns-mono (parse_tag_pipe os content atoi children q w3) (λ _. Edited q w3) _
                  (parse_tag_pipe-Edited os content atoi children q w3 pipe (d.live q ∙ live))
                  (λ _ w4 d'. Edited-trans d d'))
                (λ _ w4 d'.
                  Returns-bind (parse_tag_desc os content atoi children q) _ w4 (λ _. Edited q w2) _
                    (Returns-mono (parse_tag_desc os content atoi children q w4) (λ _. Edited q w4)
                      _
                      (parse_tag_desc-Edited os content atoi children q w4 desc (d'.live q ∙ live))
                      (λ _ w5 d''. Edited-trans d' d''))
                    (λ _ w5 d''.
                      Returns-touch q (λ v. (tt, numbered w5 v)) _ w5 _ (d''.live q ∙ live)
                        (q, added w5 d''))))))
      where
        q : ℕ
        q = (os.reply w.history malloc).pointer

        w1 : World State
        w1 = record w { history = (malloc, os.reply w.history malloc) ∷ w.history }

        emptied : World State → World State
        emptied v = record v {
          store = record v.store { mappings = update v.store.mappings q new_mapping };
        }

        numbered : World State → World State → World State
        numbered w5 v = record v {
          store = record v.store {
            mappings =
                update v.store.mappings q
                  (record (v.store.mappings q) { wd = minus_one; index = w5.store.mapping_num });
          };
        }

        w2 : World State
        w2 = record w1 {
          store = record w.store { mappings = update w.store.mappings q new_mapping };
        }

        given : (q == 0) ≡ false
        given = let h : q ≢ 0 = granted w.history in ground arith

        live : is_live w1.history q ≡ true
        live = ground (arith, given)

        added :
            (w5 : World State)
            → Edited q w2 w5
            → Added q w (record w5 {
              store = record w5.store {
                mappings =
                    update w5.store.mappings q (record (w5.store.mappings q) {
                      wd = minus_one;
                      index = w5.store.mapping_num;
                    });
                p_mapping = set w5.store.p_mapping w5.store.mapping_num q;
                mapping_num = suc w5.store.mapping_num;
              };
            })
        added w5 d = record {
          some_block = granted w.history;
          fresh = blocks w.history;
          live = d.live q ∙ live;
          lives = λ r h. d.live r ∙ ground (arith, h);
          table = rw (d.table, d.number) refl;
          number = ap suc d.number;
          others = λ r h. ground (arith, h, d.others r h);
          new = (
            ground (arith, d.number),
            ground arith,
            ground (arith, d.server),
            ground (arith, d.client),
          );
        }
