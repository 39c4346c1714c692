-- ===== src/Sample/Laws.antt =====
-- The sample world behaves as the packages document.
use friendlyrabbit.Base.{
  ℕ, zero, suc, ◌∙◌, ◌++◌, ◌≡◌, ◌↔◌, refl, ap, sym, true, Option, none, some, List, [], ◌∷◌, length,
  take, drop, arith,
}
use friendlyrabbit.Error.{ok}
use friendlyrabbit.Env.{Item, items}
use friendlyrabbit.Env.Fifo.{IsFifo}
use friendlyrabbit.Payload.Packages.{IsInverse, IsSealing}
use friendlyrabbit.Pool.View.{IsSound}
use friendlyrabbit.Pool.Calm.{IsCalm}
use friendlyrabbit.Pool.Calm.Opening.{IsOpening}
use friendlyrabbit.Pool.Steady.{IsPresent}
use friendlyrabbit.Publisher.Outcome.{IsConfirming}
use friendlyrabbit.Publisher.Accepted.{IsAccepting}
use friendlyrabbit.Sample.{broker, env, plain, packages, zeros, pool, list_get, list_empty}

take_all : (is : List Item) → take (length is) is ≡ is
take_all [] = refl
take_all (i ∷ is) = ap (◌∷◌ i) (take_all is)

drop_all : (is : List Item) → drop (length is) is ≡ []
drop_all [] = refl
drop_all (i ∷ is) = drop_all is

length-zeros : (n : ℕ) → length (zeros n) ≡ n
length-zeros zero = refl
length-zeros (suc n) = ap suc (length-zeros n)

pub get_whole :
    (i : Item) (rest : List Item) → list_get (suc (length rest)) (i ∷ rest) ≡ items (i ∷ rest) []
get_whole i rest = rw (take_all rest, drop_all rest) refl

pub empty_lem : (q : List Item) → (list_empty q ≡ true) ↔ (q ≡ [])
empty_lem [] = (λ h. refl, λ h. refl)
empty_lem (i ∷ q) = (λ h. absurd cc, λ h. absurd cc)

ok_lem : {A : Type 0} (a b : A) → ok a ≡ ok b → a ≡ b
ok_lem a b same = cc

pub new_lem : (q : List Item) → some [] ≡ some q → q ≡ []
new_lem q same = cc

abbrev pub fifo : IsFifo env
fifo = record {
  contents = λ q. q;
  contents-new = λ n q same. new_lem q same;
  put_fits = λ i q. refl;
  contents-put = λ i q. refl;
  get_waits = λ n q same. ap (list_get n) same;
  get_one = λ q i rest same. (rest, ap (list_get 1) same, refl);
  get_all = λ q i rest same. ([], rw same (get_whole i rest), refl);
  len_length = λ q. refl;
  is_empty_iff = empty_lem;
}

pub inverse : IsInverse plain
inverse = record {
  read_back = λ w text made wrote closed.
      (text, ap (λ v. ok (v ++ text)) (sym (ok_lem [] w made)), refl, refl);
}

pub sealing : IsSealing packages
sealing = record {
  unseal-seal = λ g nonce text. refl;
  seal_pos = λ g nonce text. omega arith;
  random_length =
      λ n bytes same. ap (length {0}) (sym (ok_lem (zeros n) bytes same)) ∙ length-zeros n;
}

pub calm : IsCalm env
calm = record { is_up = λ c n. refl; no_notices = λ c n. refl; no_blocking = λ c n. refl }

pub opening : IsOpening env
opening = record { calm = calm; opens = λ c n. (n, refl); confirms = λ c b n. refl }

pub sound : IsSound env fifo pool
sound = record { live = λ p lt. tt; queued = (omega arith, tt); cached = (omega arith, tt) }

given_lem : (o : Option (Unit {0})) → ok (some tt) ≡ ok o → IsPresent o
given_lem none same = absurd cc
given_lem (some tt) same = tt

pub accepting : IsAccepting env packages broker
accepting = record { sends = λ c p n. (tt, refl); acks = λ x n. refl }

pub confirming : IsConfirming env packages broker
confirming = record { gives = λ c p n m o on same. given_lem o same }
