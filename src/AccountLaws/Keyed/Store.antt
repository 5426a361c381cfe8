-- ===== src/AccountLaws/Keyed/Store.antt =====
-- Writes to a token store (tokenStore of internal/scalegraph/account.go) that keep every token under
-- its own identifier.
use sg_emulator.Base.{◌≡◌, refl, Bool, false, some, Bool-cases, inl, inr, arith}
use sg_emulator.Base.Bytes.{Bytes, bytes_eq, bytes_eq_iff}
use sg_emulator.Base.Dict.{Dict, lookup, insert, delete, lookup-insert, lookup-delete}
use sg_emulator.Token.{Token, token_id, is_placeholder, placeholder}
use sg_emulator.Account.{Account}
use sg_emulator.Id.{hex_encode}
use sg_emulator.Token.{token_equal}
use sg_emulator.AccountLaws.Methods.{Maintains, method_rules}

-- What may stand under an identifier.
abbrev pub FitsKey : Bytes → Token → Type 0
FitsKey k t = is_placeholder t ≡ false → token_id t ≡ k

pub record IsKeyed (s : Dict Token) : Type 0 where
  pub fits : (k : Bytes) (t : Token) → lookup k s ≡ some t → FitsKey k t

insert-IsKeyed :
    (s : Dict Token) (j : Bytes) (u : Token) → FitsKey j u → IsKeyed s → IsKeyed (insert j u s)
insert-IsKeyed s j u f h = record {
  fits = λ k t e. elim (Bool-cases (bytes_eq j k)) [
    | inl same ↦
        let is_u : some u ≡ some t = ground (arith, lookup-insert k j u s) in
        λ q. ground (arith, f, bytes_eq_iff j k)
    | inr other ↦ h.fits k t (ground (arith, lookup-insert k j u s))
  ];
}

delete-IsKeyed : (s : Dict Token) (j : Bytes) → IsKeyed s → IsKeyed (delete j s)
delete-IsKeyed s j h = record {
  fits = λ k t e. elim (Bool-cases (bytes_eq j k)) [
    | inl same ↦ absurd (ground (arith, lookup-delete k j s))
    | inr other ↦ h.fits k t (ground (arith, lookup-delete k j s))
  ];
}

abbrev pub KeepsKeys : Account → Type 0
KeepsKeys a = IsKeyed a.token_store

module _ (s : Dict Token) (j : Bytes) (h : IsKeyed s) where
  pub put-IsKeyed : (t : Token) → IsKeyed (insert (token_id t) t s)
  put-IsKeyed t = insert-IsKeyed s (token_id t) t (λ q. refl) h

  pub slot-IsKeyed : IsKeyed (insert j placeholder s)
  unfolding is_placeholder token_equal bytes_eq token_id hex_encode
  slot-IsKeyed = insert-IsKeyed s j placeholder (λ q. cc) h

  pub mark-IsKeyed :
      (s0 : Dict Token) (t : Token) (b : Bool)
      → IsKeyed s0
      → lookup j s0 ≡ some t
      → IsKeyed (insert j (record t { frozen = b }) s)
  unfolding is_placeholder token_equal token_id
  mark-IsKeyed s0 t b h0 e = insert-IsKeyed s j (record t { frozen = b }) (λ q. h0.fits j t e q) h

  pub remove-IsKeyed : IsKeyed (delete j s)
  remove-IsKeyed = delete-IsKeyed s j h

pub ruleset key_rules = (method_rules, put-IsKeyed, slot-IsKeyed, mark-IsKeyed, remove-IsKeyed)
