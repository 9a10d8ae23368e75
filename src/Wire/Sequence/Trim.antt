-- ===== src/Wire/Sequence/Trim.antt =====
-- `strings.Trim` on texts that begin and end in a byte which is no blank.
use gotmux.Prelude.{◌≡◌, ap, false, [], ◌∷◌, ◌++◌, Bytes, arith}
use gotmux.Wire.Words.{is_space}
use gotmux.Wire.Sequence.{trim, trim_left, trim_right, trim_cons}

abbrev pub EndsSolid : Bytes → Type 0
EndsSolid [] = ⊥
EndsSolid (c ∷ []) = is_space c ≡ false
EndsSolid (c ∷ d ∷ s) = EndsSolid (d ∷ s)

abbrev pub BeginsSolid : Bytes → Type 0
BeginsSolid [] = ⊥
BeginsSolid (c ∷ s) = is_space c ≡ false

pub EndsSolid-append : (p q : Bytes) → EndsSolid q → EndsSolid (p ++ q)
EndsSolid-append [] q h = h
EndsSolid-append (c ∷ []) [] h = elim h [ ]
EndsSolid-append (c ∷ []) (d ∷ q) h = h
EndsSolid-append (c ∷ d ∷ p) q h = EndsSolid-append (d ∷ p) q h

-- Blanks behind a solid end are dropped, and nothing else.
trim_right-EndsSolid :
    (s blanks : Bytes) → EndsSolid s → trim_right blanks ≡ [] → trim_right (s ++ blanks) ≡ s
unfolding trim_right
trim_right-EndsSolid [] blanks h b = elim h [ ]
trim_right-EndsSolid (c ∷ []) blanks h b = rw b (ground arith)
trim_right-EndsSolid (c ∷ d ∷ s) blanks h b =
    ap (trim_cons c) (trim_right-EndsSolid (d ∷ s) blanks h b)

trim_left-BeginsSolid : (s rest : Bytes) → BeginsSolid s → trim_left (s ++ rest) ≡ s ++ rest
unfolding trim_left
trim_left-BeginsSolid [] rest h = elim h [ ]
trim_left-BeginsSolid (c ∷ s) rest h = ground arith

pub trim-solid :
    (s blanks : Bytes)
    → BeginsSolid s
    → EndsSolid s
    → trim_right blanks ≡ []
    → trim (s ++ blanks) ≡ s
unfolding trim
trim-solid s blanks b e z =
    rw (trim_left-BeginsSolid s blanks b) (trim_right-EndsSolid s blanks e z)
