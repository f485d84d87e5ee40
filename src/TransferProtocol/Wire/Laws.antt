-- ===== src/TransferProtocol/Wire/Laws.antt =====
-- crates/transfer-protocol/src/codec.rs: each method of `Reader` undoes one of `Writer`.
use dart_udp.Base.{
  ℕ, ◌^◌, ◌<◌, ◌≡◌, refl, ap, ◌∙◌, arith, ok_or, head?, String, Result, List, [], ◌∷◌, length, ok,
  err,
}
use mathlib.Core.List.{append-nil}
use dart_udp.Base.Cursor
use dart_udp.Base.Fixed.{ReadsBack-extend, read_range-Reads, word-Reads}
use dart_udp.Base.Cursor.{Reads, ReadsBack}
use dart_udp.TransferProtocol.Wire.{Parser, Writer, ◌>>=◌, pure, lift, ◌>=>◌, extend, require, done}
use dart_udp.TransferProtocol.Error.{ProtocolError, truncated}
use dart_udp.TransferProtocol.Types.{id_len}
use dart_udp.TransferProtocol.Wire.Write.{bytes_fixed, id, u8, u16, u32, u64}
use dart_udp.TransferProtocol.Wire.Read.{
  read_take, read_array, read_id, read_u8, read_u16, read_u32, read_u64, read_i64,
}

-- What the writer appends is read as `a`.
pub record Undoes {A : Type 0} (w : Writer) (p : Parser A) (a : A) : Type 0 where
  pub back : ReadsBack w p a

module _ {A B : Type 0} (p : Parser A) (f : A → Parser B) where
  pub bind-Undoes :
      (w v : Writer) (a : A) (b : B)
      → Undoes w p a
      → Undoes v (f a) b
      → Undoes (w >=> v) (p >>= f) b
  unfolding ◌>>=◌ ◌>=>◌
  bind-Undoes w v a b first second = record {
    back = Cursor.ReadsBack-bind p f w v a b first.back second.back;
  }

pub done-Undoes : {A : Type 0} (a : A) → Undoes done (pure a) a
unfolding pure done
done-Undoes a = record { back = Cursor.ReadsBack-done a }

-- `w; Ok(())`
pub end-Undoes :
    {A : Type 0} (p : Parser A) (w : Writer) (a : A) → Undoes w p a → Undoes (w >=> done) p a
unfolding ◌>=>◌ done
end-Undoes p w a whole = record {
  back = λ output output' h.
      let (mid, h₁, h₂) = Cursor.>=>-eq-ok w done output h in whole.back output output' (h₁ ∙ h₂);
}

pub require-Undoes :
    {A : Type 0} (p : Parser A) (check : Result ProtocolError (Unit {0})) (w : Writer) (a : A)
    → (check ≡ ok tt → Undoes w p a)
    → Undoes (require check >=> w) p a
unfolding require ◌>=>◌
require-Undoes p check w a k = record {
  back = Cursor.ReadsBack-require p check w a λ passed. (k passed).back;
}

pub known-Undoes :
    {A B : Type 0} (f : A → Parser B) (r : Result ProtocolError A) (a : A) (w : Writer) (b : B)
    → r ≡ ok a
    → Undoes w (f a) b
    → Undoes w (lift r >>= f) b
unfolding lift ◌>>=◌
known-Undoes f r a w b passed k = record { back = Cursor.ReadsBack-known f a b r w passed k.back }

-- A parser that reads nothing.
pub lift-Undoes :
    {A : Type 0} (r : Result ProtocolError A) (a : A) → r ≡ ok a → Undoes done (lift r) a
unfolding lift done
lift-Undoes r a passed = record {
  back =
      λ output output' h. ([], ground (arith, append-nil output), Cursor.Reads-lift_ok r a passed);
}

-- The last field, where no `Ok(())` follows.
pub last-Undoes :
    {A B : Type 0} (p : Parser A) (f : A → Parser B) (w : Writer) (a : A) (b : B)
    → Undoes w p a
    → Undoes done (f a) b
    → Undoes w (p >>= f) b
unfolding ◌>>=◌ ◌>=>◌ done
last-Undoes p f w a b first second = record {
  back = λ output output' h.
      (bind-Undoes p f w done a b first second).back output output'
        (ap (λ r. elim r [ ok next ↦ ok next | err e ↦ err e ]) h);
}

-- A number of bytes that is known.
pub take-Undoes :
    (context : String) (n : ℕ) (bytes : List ℕ)
    → length bytes ≡ n
    → Undoes (bytes_fixed bytes) (read_take n context) bytes
unfolding read_take bytes_fixed extend
take-Undoes context n bytes size = record {
  back = ReadsBack-extend _ bytes bytes (read_range-Reads (truncated context) n bytes size);
}

pub array-Undoes :
    (context : String) (n : ℕ) (bytes : List ℕ)
    → length bytes ≡ n
    → Undoes (bytes_fixed bytes) (read_array n context) bytes
unfolding read_array
array-Undoes context n bytes size = take-Undoes context n bytes size

pub id-Undoes :
    (context : String) (bytes : List ℕ)
    → length bytes ≡ id_len
    → Undoes (id bytes) (read_id context) bytes
unfolding read_id id bytes_fixed
id-Undoes context bytes size = array-Undoes context id_len bytes size

pub u8-Reads : (v : ℕ) → Reads read_u8 (v ∷ []) v
unfolding read_u8 read_take lift ◌>>=◌
u8-Reads v =
    Cursor.Reads-bind (read_take 1 "u8") (λ bytes. lift (ok_or (head? bytes) (truncated "u8")))
      (v ∷ []) [] (v ∷ []) v (read_range-Reads (truncated "u8") 1 (v ∷ []) refl)
      (Cursor.Reads-lift_ok _ v refl)

pub u8-Undoes : (v : ℕ) → Undoes (u8 v) read_u8 v
unfolding u8 extend
u8-Undoes v = record { back = ReadsBack-extend _ (v ∷ []) v (u8-Reads v) }

pub u16-Undoes : (v : ℕ) → v < 2 ^ 16 → Undoes (u16 v) read_u16 v
unfolding u16 read_u16 read_array read_take extend pure ◌>>=◌
u16-Undoes v h = record { back = ReadsBack-extend _ _ v (word-Reads (truncated "u16") 2 v h) }

pub u32-Undoes : (v : ℕ) → v < 2 ^ 32 → Undoes (u32 v) read_u32 v
unfolding u32 read_u32 read_array read_take extend pure ◌>>=◌
u32-Undoes v h = record { back = ReadsBack-extend _ _ v (word-Reads (truncated "u32") 4 v h) }

pub u64-Undoes : (v : ℕ) → v < 2 ^ 64 → Undoes (u64 v) read_u64 v
unfolding u64 read_u64 read_array read_take extend pure ◌>>=◌
u64-Undoes v h = record { back = ReadsBack-extend _ _ v (word-Reads (truncated "u64") 8 v h) }

pub i64-Undoes : (v : ℕ) → v < 2 ^ 64 → Undoes (u64 v) read_i64 v
unfolding u64 read_i64 read_array read_take extend pure ◌>>=◌
i64-Undoes v h = record { back = ReadsBack-extend _ _ v (word-Reads (truncated "i64") 8 v h) }
