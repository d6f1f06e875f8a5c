-- ===== src/Commons/Instance.antt =====
-- Lists that behave as commons/collections/list.h documents: the assumptions can be met.
use esthe_r.Base.{refl, [], ◌∷◌, ◌++◌, length, get_elem?}
use esthe_r.Commons.{CommonsList, erase_idx, find?, filter}

abbrev pub sequences : CommonsList
sequences = record {
  list_create = [];
  list_add = λ l x. l ++ (x ∷ []);
  list_get = get_elem?;
  list_remove = λ l i. (get_elem? l i, erase_idx l i);
  list_size = length;
  list_find = λ l p. find? p l;
  list_filter = λ l p. filter p l;
  create_lem = refl;
  add_lem = λ l x. refl;
  get_lem = λ l i. refl;
  remove_lem = λ l i. refl;
  size_lem = λ l. refl;
  find_lem = λ l p. refl;
  filter_lem = λ l p. refl;
}
