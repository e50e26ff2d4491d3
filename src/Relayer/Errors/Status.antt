-- ===== src/Relayer/Errors/Status.antt =====
-- http/middlewares/errorHandler.ts: the HTTP answer to each exception.
use universal_login_sdk.Prelude.{
  ℕ, zero, suc, ◌≡◌, refl, Bool, true, false, ◌||◌, Option, none, some, ◌++◌, Text, codes,
  if◌then◌else◌,
}
use universal_login_sdk.Relayer.Errors.{
  ErrorType, ErrorClass, Exception, extends, class_of, prototype_of, error_type, message, name,
}

pub ErrorClass-discrete : Discrete ErrorClass
ErrorClass-discrete = hlevel

same_class : ErrorClass → ErrorClass → Bool
same_class c d = elim (ErrorClass-discrete c d) [ yes p ↦ true | no p ↦ false ]

-- Whether `target` is on the prototype chain that begins at a class. The chains of errors.ts have
-- four classes at most, which is what bounds the walk.
on_chain : ℕ → ErrorClass → Option ErrorClass → Bool
on_chain zero target c = false
on_chain (suc n) target none = false
on_chain (suc n) target (some c) = same_class c target || on_chain n target (extends c)

-- `err instanceof target`
pub instance_of : ErrorClass → ErrorClass → Bool
unfolding on_chain same_class extends ErrorClass-discrete
instance_of c target = on_chain 4 target (some c)

-- `getCodeForException`, for an exception whose prototype is `c`
pub code_of_class : ErrorClass → ℕ
code_of_class c =
    if instance_of c ErrorClass.validation_failed || instance_of c ErrorClass.sanitize_error
    then 400
    else if instance_of c ErrorClass.payment_error
    then 402
    else if instance_of c ErrorClass.not_found
    then 404
    else if instance_of c ErrorClass.conflict
    then 409
    else 500

pub get_code_for_exception : Exception → ℕ
unfolding code_of_class instance_of
get_code_for_exception e = code_of_class (prototype_of e)

pub record Content : Type 0 where
  pub error : Text
  pub type : Option ErrorType

-- `err.toString()`
to_string : Exception → Text
to_string (Exception.thrown text) = text
to_string e = name e ++ (codes ": " ++ message e)

-- `getContentForException`
pub get_content_for_exception : Exception → Content
unfolding instance_of to_string
get_content_for_exception e =
    if instance_of (prototype_of e) ErrorClass.relayer_error
    then record { error = to_string e; type = error_type e }
    else if instance_of (prototype_of e) ErrorClass.sanitize_error
    then record { error = message e; type = none }
    else record { error = to_string e; type = none }

-- `errorHandler`: the status and the body of the answer.
pub error_handler : Exception → ℕ × Content
unfolding get_code_for_exception get_content_for_exception
error_handler e = (get_code_for_exception e, get_content_for_exception e)

-- Whatever prototype a constructor leaves, the status is the one of the class named after `new`, and
-- the body names the exception's `errorType`.
pub error_handler-declared :
    (e : Exception)
    → ((error_handler e).0 ≡ code_of_class (class_of e)) × ((error_handler e).1.type ≡ error_type e)
unfolding error_handler prototype_of class_of error_type
error_handler-declared (Exception.invalid_proxy _ _ _) = (refl, refl)
error_handler-declared _ = (refl, refl)
