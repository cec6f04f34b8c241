-- ===== src/Parms/Parm/Names.antt =====
-- Names and numbers of the parameters: each stands for one parameter.
use monetdb_rust.Prelude.{
  ◌<◌, ◌≡◌, ◌↔◌, ◌⊎◌, inl, inr, refl, sym, ap, ◌∙◌, Bool, true, false, Bool-cases, List, [], ◌∷◌,
  ◌==◌, arith, Bytes, codes, same_bytes, get_elem?, Option, some,
}
use monetdb_rust.Parms.Parm.{
  database, host, port, tls, user, password, autocommit, binary, cert, cert_hash, client_cert,
  client_key, language, reply_size, schema, sock, sock_dir, timezone, connect_timeout, read_timeout,
  write_timeout, operation_timeout, client_info, client_application, client_prefix, client_remark,
  max_response_size, max_prefetch, table_schema, table, hash, debug, logfile, Parm, as_str,
  from_str, match_name, arms, index, parm_table_size,
}

pub same_bytes-eq : (xs ys : Bytes) → same_bytes xs ys ≡ true → xs ≡ ys
same_bytes-eq [] [] h = refl
same_bytes-eq [] (y ∷ ys) h = cc
same_bytes-eq (x ∷ xs) [] h = cc
same_bytes-eq (x ∷ xs) (y ∷ ys) h = elim (Bool-cases (x == y)) [
  | inl e ↦
      let head : x ≡ y = ground arith in
      let tail : same_bytes xs ys ≡ true = rw e at h in let rest = same_bytes-eq xs ys tail in cc
  | inr e ↦ let wrong : Path Bool false true = rw e at h in cc
]

-- The parameter of a number.
abbrev in_order : List Parm
in_order =
    database ∷ host ∷ port ∷ tls ∷ user ∷ password ∷ autocommit ∷ binary ∷ cert ∷ cert_hash
    ∷ client_cert ∷ client_key ∷ language ∷ reply_size ∷ schema ∷ sock ∷ sock_dir ∷ timezone
    ∷ connect_timeout ∷ read_timeout ∷ write_timeout ∷ operation_timeout ∷ client_info
    ∷ client_application ∷ client_prefix ∷ client_remark ∷ max_response_size ∷ max_prefetch
    ∷ table_schema ∷ table ∷ hash ∷ debug ∷ logfile ∷ []

index-in_order : (p : Parm) → get_elem? in_order (index p) ≡ some p
unfolding index
index-in_order database = refl
index-in_order host = refl
index-in_order port = refl
index-in_order tls = refl
index-in_order user = refl
index-in_order password = refl
index-in_order autocommit = refl
index-in_order binary = refl
index-in_order cert = refl
index-in_order cert_hash = refl
index-in_order client_cert = refl
index-in_order client_key = refl
index-in_order language = refl
index-in_order reply_size = refl
index-in_order schema = refl
index-in_order sock = refl
index-in_order sock_dir = refl
index-in_order timezone = refl
index-in_order connect_timeout = refl
index-in_order read_timeout = refl
index-in_order write_timeout = refl
index-in_order operation_timeout = refl
index-in_order client_info = refl
index-in_order client_application = refl
index-in_order client_prefix = refl
index-in_order client_remark = refl
index-in_order max_response_size = refl
index-in_order max_prefetch = refl
index-in_order table_schema = refl
index-in_order table = refl
index-in_order hash = refl
index-in_order debug = refl
index-in_order logfile = refl

pub index-below : (p : Parm) → index p < parm_table_size
unfolding index
index-below database = omega arith
index-below host = omega arith
index-below port = omega arith
index-below tls = omega arith
index-below user = omega arith
index-below password = omega arith
index-below autocommit = omega arith
index-below binary = omega arith
index-below cert = omega arith
index-below cert_hash = omega arith
index-below client_cert = omega arith
index-below client_key = omega arith
index-below language = omega arith
index-below reply_size = omega arith
index-below schema = omega arith
index-below sock = omega arith
index-below sock_dir = omega arith
index-below timezone = omega arith
index-below connect_timeout = omega arith
index-below read_timeout = omega arith
index-below write_timeout = omega arith
index-below operation_timeout = omega arith
index-below client_info = omega arith
index-below client_application = omega arith
index-below client_prefix = omega arith
index-below client_remark = omega arith
index-below max_response_size = omega arith
index-below max_prefetch = omega arith
index-below table_schema = omega arith
index-below table = omega arith
index-below hash = omega arith
index-below debug = omega arith
index-below logfile = omega arith

pub index-injective : (p q : Parm) → index p ≡ index q → p ≡ q
index-injective p q h =
    let same : Path (Option Parm) (some p) (some q) =
      sym (index-in_order p) ∙ ap (get_elem? in_order) h ∙ index-in_order q in
    cc

from_str-as_str : (p : Parm) → from_str (as_str p) ≡ some p
unfolding from_str match_name arms as_str
from_str-as_str database = refl
from_str-as_str host = refl
from_str-as_str port = refl
from_str-as_str tls = refl
from_str-as_str user = refl
from_str-as_str password = refl
from_str-as_str autocommit = refl
from_str-as_str binary = refl
from_str-as_str cert = refl
from_str-as_str cert_hash = refl
from_str-as_str client_cert = refl
from_str-as_str client_key = refl
from_str-as_str language = refl
from_str-as_str reply_size = refl
from_str-as_str schema = refl
from_str-as_str sock = refl
from_str-as_str sock_dir = refl
from_str-as_str timezone = refl
from_str-as_str connect_timeout = refl
from_str-as_str read_timeout = refl
from_str-as_str write_timeout = refl
from_str-as_str operation_timeout = refl
from_str-as_str client_info = refl
from_str-as_str client_application = refl
from_str-as_str client_prefix = refl
from_str-as_str client_remark = refl
from_str-as_str max_response_size = refl
from_str-as_str max_prefetch = refl
from_str-as_str table_schema = refl
from_str-as_str table = refl
from_str-as_str hash = refl
from_str-as_str debug = refl
from_str-as_str logfile = refl

-- One of the arms has this name and this parameter.
abbrev IsArm : Bytes → Parm → List (Bytes × Parm) → Type 0
IsArm name p [] = ⊥
IsArm name p ((name', p') ∷ rest) = ((name ≡ name') × (p ≡ p')) ⊎ IsArm name p rest

match_name-IsArm :
    (name : Bytes) (p : Parm) (rest : List (Bytes × Parm))
    → match_name name rest ≡ some p
    → IsArm name p rest
unfolding match_name
match_name-IsArm name p [] h = cc
match_name-IsArm name p ((name', p') ∷ rest) h = elim (Bool-cases (same_bytes name name')) [
  | inl e ↦ inl (same_bytes-eq name name' e, cc (rw (e, match_name) at h))
  | inr e ↦ inr (match_name-IsArm name p rest (rw (e, match_name) at h))
]

abbrev AllArms : (Bytes → Parm → Type 0) → List (Bytes × Parm) → Type 0
AllArms P [] = Unit
AllArms P ((name, p) ∷ rest) = P name p × AllArms P rest

IsArm-all :
    (P : Bytes → Parm → Type 0) (name : Bytes) (p : Parm) (rest : List (Bytes × Parm))
    → AllArms P rest
    → IsArm name p rest
    → P name p
IsArm-all P name p [] all never = absurd never
IsArm-all P name p ((name', p') ∷ rest) (here, behind) (inl (e, e')) = rw (e, e') here
IsArm-all P name p ((name', p') ∷ rest) (here, behind) (inr later) =
    IsArm-all P name p rest behind later

-- The name of the parameter, or the other name of the reply size.
abbrev pub IsNameOf : Bytes → Parm → Type 0
IsNameOf name p = (name ≡ as_str p) ⊎ ((name ≡ codes "fetchsize") × (p ≡ reply_size))

arms-IsNameOf : AllArms IsNameOf arms
unfolding arms as_str
arms-IsNameOf = (
  inl refl,
  (
    inl refl,
    (
      inl refl,
      (
        inl refl,
        (
          inl refl,
          (
            inl refl,
            (
              inl refl,
              (
                inl refl,
                (
                  inl refl,
                  (
                    inl refl,
                    (
                      inl refl,
                      (
                        inl refl,
                        (
                          inl refl,
                          (
                            inl refl,
                            (
                              inr (refl, refl),
                              (
                                inl refl,
                                (
                                  inl refl,
                                  (
                                    inl refl,
                                    (
                                      inl refl,
                                      (
                                        inl refl,
                                        (
                                          inl refl,
                                          (
                                            inl refl,
                                            (
                                              inl refl,
                                              (
                                                inl refl,
                                                (
                                                  inl refl,
                                                  (
                                                    inl refl,
                                                    (
                                                      inl refl,
                                                      (
                                                        inl refl,
                                                        (
                                                          inl refl,
                                                          (
                                                            inl refl,
                                                            (
                                                            inl refl,
                                                            (inl refl, (inl refl, (inl refl, tt))),
                                                            ),
                                                          ),
                                                        ),
                                                      ),
                                                    ),
                                                  ),
                                                ),
                                              ),
                                            ),
                                          ),
                                        ),
                                      ),
                                    ),
                                  ),
                                ),
                              ),
                            ),
                          ),
                        ),
                      ),
                    ),
                  ),
                ),
              ),
            ),
          ),
        ),
      ),
    ),
  ),
)

-- `from_str` finds a parameter exactly for the name that `as_str` writes for it, and for "fetchsize",
-- which is another name of the reply size.
pub from_str_iff : (name : Bytes) (p : Parm) → (from_str name ≡ some p) ↔ IsNameOf name p
unfolding from_str
from_str_iff name p = (
  λ h. IsArm-all IsNameOf name p arms arms-IsNameOf (match_name-IsArm name p arms h),
  λ n. elim n [
    | inl e ↦ rw e (from_str-as_str p)
    | inr (e, e') ↦ rw (e, e') (unfold match_name in unfold arms in refl)
  ],
)
